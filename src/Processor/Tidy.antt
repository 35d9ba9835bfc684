-- ===== src/Processor/Tidy.antt =====
-- What `Create` and `Update` of the alert repository keep, every message keeps.
use argus_go.Base.{ℕ, List, Option, inl, inr, Option-cases}
use argus_go.Domain.{Alert, InternalEvent, resolve}
use argus_go.Memory.Alerts.{MemoryAlertRepository, create}
use argus_go.Memory.Alerts.Tidy.{IsTidy, create-IsTidy, new_alert_repository-IsTidy}
use argus_go.Processor.{handle_event, handle_message}
use argus_go.Processor.World.{World, Outside, service}
use argus_go.Processor.Kept.{Inv, Distinct}
use argus_go.Processor.Runs.{parent_resolved}
use argus_go.Processor.Frame.{repo-notified}
use argus_go.Processor.Changes.{
  Change, idle, opened, joined, revived, asked, finished, closed, counted_down, completed,
  child_closed, handle_event-Change,
}
use argus_go.Processor.Reachable.{Reach, Reach-Inv, start, next, message, administration, tick}

module _ (o : Outside) (event : InternalEvent) (w : World) (P : MemoryAlertRepository → Type 0)
    (writes : (a : Alert) (r : MemoryAlertRepository) → P r → P (create a r)) where
  resolved : (b : Alert) (u : World) → P u.repo → P (parent_resolved o b u).repo
  resolved b u holds = rw (repo-notified o (resolve b (o.clock u.ticks))) (writes _ _ holds)

  Change-keeps : {u : World} → Change o event w u → P w.repo → P u.repo
  Change-keeps (idle why) h = h
  Change-keeps (opened em rule action known missing shut) h = writes _ _ h
  Change-keeps (joined em rule p b action known missing is_open there type) h =
      writes _ _ (writes _ _ h)
  Change-keeps (revived b action there status) h = writes _ _ h
  Change-keeps (asked b action there type status more) h = writes _ _ h
  Change-keeps (finished b action there type status done) h = resolved b w h
  Change-keeps (closed b action there type status alone) h = writes _ _ h
  Change-keeps (counted_down b q action there type status waits more) h = writes _ _ h
  Change-keeps (completed b p action there type status stored parent still waits none_left) h =
      resolved p (child_closed o event w b) (writes _ _ h)

module _ (o : Outside) where
  pub handle_event-IsTidy :
      (event : InternalEvent) (w : World)
      → Inv o w
      → IsTidy w.repo
      → IsTidy (handle_event (service o) event w).1.repo
  handle_event-IsTidy event w v tidy =
      Change-keeps o event w IsTidy create-IsTidy (handle_event-Change o event w v) tidy

  pub Reach-IsTidy :
      (unmarshal : List ℕ → Option InternalEvent)
      → Distinct o
      → {w : World} → Reach o unmarshal w
      → IsTidy w.repo
  unfolding handle_message
  Reach-IsTidy unmarshal distinct start = new_alert_repository-IsTidy
  Reach-IsTidy unmarshal distinct (next r (administration ems rules)) =
      Reach-IsTidy unmarshal distinct r
  Reach-IsTidy unmarshal distinct (next r tick) = Reach-IsTidy unmarshal distinct r
  Reach-IsTidy unmarshal distinct (next {w} r (message msg)) =
      let tidy = Reach-IsTidy unmarshal distinct r in
      elim (Option-cases (unmarshal msg.value)) [
        | inl malformed ↦ rw malformed tidy
        | inr (event, decoded) ↦
            rw decoded (handle_event-IsTidy event w (Reach-Inv o unmarshal distinct r) tidy)
      ]
