-- ===== src/Processor.antt =====
-- internal/processor/service.go over the interfaces of the stores: each method is an action on a
-- world `W`, which holds the stores and whatever else the service talks to. `time.Now()` and
-- `uuid.New()` are actions of that world, since every call has another result. Logging is left out.
pub mod World
pub mod Contract
pub mod Beside
pub mod Invariant
pub mod Writes
pub mod Runs
pub mod Counts
pub mod Kept
pub mod Handled
pub mod Reference
pub mod Stored
pub mod Messages
pub mod Reachable
pub mod Changes
pub mod Frame
pub mod Resolution
pub mod Tidy
pub mod Waiting
pub mod Completion
pub mod Grouping
pub mod Notices
pub mod Consumer
pub mod Tests
use argus_go.Base.{
  ℕ, List, ltb, String, Bool, true, false, not, Option, none, some, Result, ok, err, Eff, ◌>>=◌,
  ◌>>◌, pure, raise, attempt, ◌==◌, if◌then◌else◌,
}
use argus_go.Base.Effect.{parent_alert_state_not_found}
use argus_go.Domain.{
  Time, Alert, Event, InternalEvent, EventManager, GroupingRule, new_parent_alert, new_child_alert,
  alert_status_active, alert_status_resolved, alert_type_child, action_trigger, action_resolve,
  resolve, mark_resolve_requested, increment_child_count, time_window,
}
use argus_go.Store.{
  StateStore, AlertRepository, EventManagerRepository, GroupingRuleRepository, AlertState,
  ParentState, PendingResolve,
}
use argus_go.Queue.{Message}
use argus_go.Notification.{Notifier}

pub record Service (W : Type 0) : Type 0 where
  pub state_store : StateStore W
  pub alert_repo : AlertRepository W
  pub event_manager_repo : EventManagerRepository W
  pub grouping_rule_repo : GroupingRuleRepository W
  pub notifier : Notifier W
  pub now : Eff W Time
  pub new_id : Eff W String

module _ {W : Type 0} (s : Service W) where
  abbrev pub notify : (W → W) → Eff W Unit
  notify f w = (ok tt, f w)

  unfoldable pub create_parent_alert : InternalEvent → GroupingRule → EventManager → Eff W Unit
  create_parent_alert event rule em = do
    now ← s.now
    id ← s.new_id
    let alert = record (new_parent_alert event.event now) { id = id }
    s.state_store.set_alert (record {
      dedup_key = alert.dedup_key;
      event_manager_id = alert.event_manager_id;
      type = alert.type;
      status = alert.status;
      parent_dedup_key = "";
      resolve_requested = false;
    })
    s.state_store.set_parent event.event_manager_id rule.grouping_key event.grouping_value
        (record { dedup_key = alert.dedup_key; created_at = alert.created_at; child_count = 0 })
        (time_window rule)
    s.alert_repo.create alert
    notify (s.notifier.notify_new_parent alert em)

  -- "Update parent's child count in database": both errors are dropped.
  unfoldable pub update_child_count : Result Alert → Eff W Unit
  update_child_count (err _) = pure tt
  update_child_count (ok parent_alert) = do
    now ← s.now
    attempt (s.alert_repo.update (increment_child_count parent_alert now))
    pure tt

  unfoldable pub create_child_alert : InternalEvent → ParentState → GroupingRule → Eff W Unit
  unfolding update_child_count
  create_child_alert event parent_state rule = do
    now ← s.now
    id ← s.new_id
    let alert = record (new_child_alert event.event parent_state.dedup_key now) { id = id }
    s.state_store.set_alert (record {
      dedup_key = alert.dedup_key;
      event_manager_id = alert.event_manager_id;
      type = alert.type;
      status = alert.status;
      parent_dedup_key = alert.parent_dedup_key;
      resolve_requested = false;
    })
    s.state_store.add_child parent_state.dedup_key alert.dedup_key
    s.alert_repo.create alert
    parent_alert ← attempt (s.alert_repo.get_by_dedup_key parent_state.dedup_key)
    update_child_count parent_alert

  unfoldable pub reactivate_alert : InternalEvent → AlertState → Eff W Unit
  reactivate_alert event existing_state = do
    s.state_store.set_alert
        (record existing_state { status = alert_status_active; resolve_requested = false })
    alert ← s.alert_repo.get_by_dedup_key event.dedup_key
    now ← s.now
    s.alert_repo.update (record alert {
      status = alert_status_active;
      resolve_requested = false;
      resolved_at = none;
      updated_at = now;
    })

  -- "Parent exists - create as child", or else as a new parent.
  abbrev pub link : InternalEvent → GroupingRule → EventManager → Option ParentState → Eff W Unit
  link event rule em (some parent_state) = create_child_alert event parent_state rule
  link event rule em none = create_parent_alert event rule em

  -- What a trigger does, by what the state store holds under its key.
  abbrev pub trigger_existing : InternalEvent → Option AlertState → Eff W Unit
  trigger_existing event (some existing) =
      if existing.status == alert_status_resolved then reactivate_alert event existing else pure tt
  trigger_existing event none = do
    em ← s.event_manager_repo.get_by_id event.event_manager_id
    rule ← s.grouping_rule_repo.get_by_id em.grouping_rule_id
    parent_state ←
        s.state_store.get_parent event.event_manager_id rule.grouping_key event.grouping_value
    link event rule em parent_state

  unfoldable pub handle_trigger : InternalEvent → Eff W Unit
  handle_trigger event = do
    existing ← s.state_store.get_alert event.dedup_key
    trigger_existing event existing

  -- The notification at the end of a parent's resolution; a missing event manager is only logged.
  abbrev pub notify_resolution : Alert → Result EventManager → Eff W Unit
  notify_resolution alert (err _) = pure tt
  notify_resolution alert (ok em) = notify (s.notifier.notify_resolved alert em)

  unfoldable pub complete_parent_resolution : String → AlertState → Eff W Unit
  complete_parent_resolution dedup_key alert_state = do
    s.state_store.set_alert
        (record alert_state { status = alert_status_resolved; resolve_requested = false })
    attempt (s.state_store.delete_pending_resolve dedup_key)
    alert ← s.alert_repo.get_by_dedup_key dedup_key
    now ← s.now
    let resolved = resolve alert now
    s.alert_repo.update resolved
    em ← attempt (s.event_manager_repo.get_by_id alert_state.event_manager_id)
    notify_resolution resolved em

  abbrev pub complete_if_known : String → Option AlertState → Eff W Unit
  complete_if_known parent_dedup_key none = raise parent_alert_state_not_found
  complete_if_known parent_dedup_key (some parent_state) =
      complete_parent_resolution parent_dedup_key parent_state

  abbrev pub check_pending : String → Option PendingResolve → Eff W Unit
  check_pending parent_dedup_key none = pure tt
  check_pending parent_dedup_key (some pending) = do
    active_children ← s.alert_repo.count_active_children parent_dedup_key
    if ltb 0 active_children
        then s.state_store.set_pending_resolve parent_dedup_key
            (record pending { remaining_children = active_children })
        else do
          parent_state ← s.state_store.get_alert parent_dedup_key
          complete_if_known parent_dedup_key parent_state

  unfoldable pub check_parent_resolution : String → Eff W Unit
  check_parent_resolution parent_dedup_key = do
    pending ← s.state_store.get_pending_resolve parent_dedup_key
    check_pending parent_dedup_key pending

  unfoldable pub resolve_child_alert : InternalEvent → AlertState → Eff W Unit
  resolve_child_alert event alert_state = do
    s.state_store.set_alert (record alert_state { status = alert_status_resolved })
    alert ← s.alert_repo.get_by_dedup_key event.dedup_key
    now ← s.now
    s.alert_repo.update (resolve alert now)
    if not (alert_state.parent_dedup_key == "")
        then check_parent_resolution alert_state.parent_dedup_key
        else pure tt

  unfoldable pub request_resolution : InternalEvent → AlertState → ℕ → Eff W Unit
  request_resolution event alert_state active_children = do
    s.state_store.set_alert (record alert_state { resolve_requested = true })
    requested_at ← s.now
    s.state_store.set_pending_resolve event.dedup_key
        (record { requested_at = requested_at; remaining_children = active_children })
    alert ← s.alert_repo.get_by_dedup_key event.dedup_key
    now ← s.now
    s.alert_repo.update (mark_resolve_requested alert now)

  unfoldable pub resolve_parent_alert : InternalEvent → AlertState → Eff W Unit
  resolve_parent_alert event alert_state = do
    active_children ← s.alert_repo.count_active_children event.dedup_key
    if ltb 0 active_children
        then request_resolution event alert_state active_children
        else complete_parent_resolution event.dedup_key alert_state

  -- What a resolve does, by what the state store holds under its key.
  abbrev pub resolve_existing : InternalEvent → Option AlertState → Eff W Unit
  resolve_existing event none = pure tt
  resolve_existing event (some alert_state) =
      if alert_state.status == alert_status_resolved
      then pure tt
      else if alert_state.type == alert_type_child
      then resolve_child_alert event alert_state
      else resolve_parent_alert event alert_state

  unfoldable pub handle_resolve : InternalEvent → Eff W Unit
  handle_resolve event = do
    alert_state ← s.state_store.get_alert event.dedup_key
    resolve_existing event alert_state

  -- `handleMessage` after the decoding.
  unfoldable pub handle_event : InternalEvent → Eff W Unit
  handle_event event =
      if event.action == action_trigger
      then handle_trigger event
      else if event.action == action_resolve
      then handle_resolve event
      else pure tt

  -- `json.Unmarshal` of the payload; a payload that does not decode is dropped.
  abbrev pub handle_decoded : Option InternalEvent → Eff W Unit
  handle_decoded none = pure tt
  handle_decoded (some event) = handle_event event

  unfoldable pub handle_message : (List ℕ → Option InternalEvent) → Message → Eff W Unit
  handle_message unmarshal msg = handle_decoded (unmarshal msg.value)
