-- ===== src/Notification.antt =====
-- internal/notification/notifier.go: the notifier's interface, the payload, and the stub that
-- writes what it would send to the log. The log is the part of the world that `Log` lists.
use argus_go.Base.{ℕ, String, List, ◌∷◌, [], ◌++◌}
use argus_go.Domain.{Time, Alert, EventManager}

pub record NotificationPayload : Type 0 where
  pub alert_id : String
  pub dedup_key : String
  pub event_manager_id : String
  pub summary : String
  pub severity : String
  pub status : String
  pub type : String
  pub child_count : ℕ
  pub timestamp : Time

-- `buildPayload`, at the time `now`.
abbrev pub build_payload : Alert → Time → NotificationPayload
build_payload alert now = record {
  alert_id = alert.id;
  dedup_key = alert.dedup_key;
  event_manager_id = alert.event_manager_id;
  summary = alert.summary;
  severity = alert.severity;
  status = alert.status;
  type = alert.type;
  child_count = alert.child_count;
  timestamp = now;
}

-- The interface `Notifier`; neither method returns an error.
pub record Notifier (W : Type 0) : Type 0 where
  pub notify_new_parent : Alert → EventManager → W → W
  pub notify_resolved : Alert → EventManager → W → W

-- A log line of the stub: the webhook it would call, and the fields that it names.
pub data Notice : Type 0 where
  new_parent : (webhook_url alert_id dedup_key summary severity : String) → Notice
  resolved : (webhook_url alert_id dedup_key summary : String) (child_count : ℕ) → Notice

-- `StubNotifier.NotifyNewParent`
abbrev pub notify_new_parent : Alert → EventManager → Time → List Notice → List Notice
notify_new_parent alert em now log =
    let p = build_payload alert now in
    log
    ++ new_parent em.notification_config.webhook_url p.alert_id p.dedup_key p.summary p.severity
      ∷ []

-- `StubNotifier.NotifyResolved`
abbrev pub notify_resolved : Alert → EventManager → Time → List Notice → List Notice
notify_resolved alert em now log =
    let p = build_payload alert now in
    log
    ++ resolved em.notification_config.webhook_url p.alert_id p.dedup_key p.summary p.child_count
      ∷ []
