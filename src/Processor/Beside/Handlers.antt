-- ===== src/Processor/Beside/Handlers.antt =====
-- The methods of internal/processor/service.go do the same over any state store that keeps its contract
-- as over the in-memory one.
use argus_go.Base.{
  Bool, true, false, if◌then◌else◌, ℕ, String, not, Option, none, some, Result, ok, err, Eff, ◌>>=◌,
  ◌>>◌, attempt, ltb, ◌==◌,
}
use argus_go.Base.Effect.{parent_alert_state_not_found}
use argus_go.Domain.{
  Time, Alert, InternalEvent, EventManager, GroupingRule, alert_status_resolved, alert_type_child,
  action_trigger, action_resolve, resolve,
}
use argus_go.Store.{ParentState, AlertState, PendingResolve}
use argus_go.Processor.{
  Service, create_parent_alert, update_child_count, create_child_alert, reactivate_alert, link,
  trigger_existing, handle_trigger, notify_resolution, complete_parent_resolution,
  complete_if_known, check_pending, check_parent_resolution, resolve_child_alert,
  request_resolution, resolve_parent_alert, resolve_existing, handle_resolve, handle_event,
  handle_decoded,
}
use argus_go.Processor.World.{World}
use argus_go.Processor.Beside.Calls.{Any}
use argus_go.Processor.Beside.Alike.{Relation, IsSimulation, Alike}

-- What completeParentResolution does after it has deleted the pending resolve, with or without an
-- error.
abbrev completion : {V : Type 0} → Service V → String → AlertState → Result (Unit {0}) → Eff V Unit
completion s k a deleted = do
  alert ← s.alert_repo.get_by_dedup_key k
  now ← s.now
  s.alert_repo.update (resolve alert now)
  em ← attempt (s.event_manager_repo.get_by_id a.event_manager_id)
  notify_resolution s (resolve alert now) em

module _ {V : Type 0} (Rel : Relation V) (Recent : Time → Type 0)
    (RecentPending : Option PendingResolve → Type 0) (S : Service V)
    (T : (ℕ → Time) → Service World) (sim : IsSimulation Rel)
    (alike : Alike Rel Recent RecentPending S T) where
  -- A method that returns no value, and the same one in memory mode.
  abbrev Same : Eff V Unit → ((ℕ → Time) → Eff World Unit) → Type 0
  Same m n = Rel Unit Any m n

  if-Same :
      (b : Bool) {m m' : Eff V Unit} {n n' : (ℕ → Time) → Eff World Unit}
      → Same m n
      → Same m' n'
      → Same (if b then m else m') (λ clock. if b then n clock else n' clock)
  if-Same true s s' = s
  if-Same false s s' = s'

  create_parent_alert-Same :
      (event : InternalEvent) (rule : GroupingRule) (em : EventManager)
      → Same
          (create_parent_alert S event rule em)
          (λ clock. create_parent_alert (T clock) event rule em)
  unfolding create_parent_alert
  create_parent_alert-Same event rule em = sim.binds _ _ _ _ alike.now (λ now recent.
      sim.binds _ _ _ _ alike.new_id (λ id _. sim.binds _ _ _ _ (alike.set_alert _) (λ _ _.
        sim.binds _ _ _ _ (alike.set_parent _ _ _ _ _ recent)
          (λ _ _. sim.binds _ _ _ _ (alike.create _) (λ _ _. alike.notify_new_parent _ _)))))

  update_child_count-Same :
      (r : Result Alert) → Same (update_child_count S r) (λ clock. update_child_count (T clock) r)
  unfolding update_child_count
  update_child_count-Same (err e) = sim.returns tt tt
  update_child_count-Same (ok a) =
      sim.binds _ _ _ _ alike.now
        (λ now _. sim.binds _ _ _ _ (sim.attempts _ _ (alike.update _)) (λ _ _. sim.returns tt tt))

  create_child_alert-Same :
      (event : InternalEvent) (p : ParentState) (rule : GroupingRule)
      → Same
          (create_child_alert S event p rule)
          (λ clock. create_child_alert (T clock) event p rule)
  unfolding create_child_alert
  create_child_alert-Same event p rule = sim.binds _ _ _ _ alike.now (λ now _.
      sim.binds _ _ _ _ alike.new_id (λ id _. sim.binds _ _ _ _ (alike.set_alert _) (λ _ _.
        sim.binds _ _ _ _ (alike.add_child _ _) (λ _ _. sim.binds _ _ _ _ (alike.create _) (λ _ _.
          sim.binds _ _ _ _ (sim.attempts _ _ (alike.get_by_dedup_key _))
            (λ found _. update_child_count-Same found))))))

  reactivate_alert-Same :
      (event : InternalEvent) (a : AlertState)
      → Same (reactivate_alert S event a) (λ clock. reactivate_alert (T clock) event a)
  unfolding reactivate_alert
  reactivate_alert-Same event a = sim.binds _ _ _ _ (alike.set_alert _) (λ _ _.
      sim.binds _ _ _ _ (alike.get_by_dedup_key _)
        (λ alert _. sim.binds _ _ _ _ alike.now (λ now _. alike.update _)))

  link-Same :
      (event : InternalEvent) (rule : GroupingRule) (em : EventManager) (p : Option ParentState)
      → Same (link S event rule em p) (λ clock. link (T clock) event rule em p)
  link-Same event rule em none = create_parent_alert-Same event rule em
  link-Same event rule em (some p) = create_child_alert-Same event p rule

  trigger_existing-Same :
      (event : InternalEvent) (a : Option AlertState)
      → Same (trigger_existing S event a) (λ clock. trigger_existing (T clock) event a)
  trigger_existing-Same event none = sim.binds _ _ _ _ (alike.event_manager _) (λ em _.
      sim.binds _ _ _ _ (alike.grouping_rule _)
        (λ rule _. sim.binds _ _ _ _ (alike.get_parent _ _ _) (λ p _. link-Same event rule em p)))
  trigger_existing-Same event (some a) =
      if-Same (a.status == alert_status_resolved) (reactivate_alert-Same event a)
        (sim.returns tt tt)

  handle_trigger-Same :
      (event : InternalEvent)
      → Same (handle_trigger S event) (λ clock. handle_trigger (T clock) event)
  unfolding handle_trigger
  handle_trigger-Same event =
      sim.binds _ _ _ _ (alike.get_alert _) (λ a _. trigger_existing-Same event a)

  notify_resolution-Same :
      (a : Alert) (r : Result EventManager)
      → Same (notify_resolution S a r) (λ clock. notify_resolution (T clock) a r)
  notify_resolution-Same a (err e) = sim.returns tt tt
  notify_resolution-Same a (ok em) = alike.notify_resolved a em

  completion-Same :
      (k : String) (a : AlertState)
      → Same (completion S k a (ok tt)) (λ clock. completion (T clock) k a (ok tt))
  completion-Same k a = sim.binds _ _ _ _ (alike.get_by_dedup_key k) (λ alert _.
      sim.binds _ _ _ _ alike.now (λ now _.
        sim.binds _ _ _ _ (alike.update (resolve alert now)) (λ _ _.
          sim.binds _ _ (notify_resolution S (resolve alert now))
            (λ clock. notify_resolution (T clock) (resolve alert now))
            (sim.attempts _ _ (alike.event_manager _)) (λ em _. notify_resolution-Same _ em))))

  complete_parent_resolution-Same :
      (k : String) (a : AlertState)
      → Same (complete_parent_resolution S k a) (λ clock. complete_parent_resolution (T clock) k a)
  unfolding complete_parent_resolution
  complete_parent_resolution-Same k a = sim.binds _ _ _ _ (alike.set_alert _) (λ _ _.
      sim.binds _ _ (completion S k a) (λ clock. completion (T clock) k a)
        (sim.attempts _ _ (alike.delete_pending_resolve k)) (λ _ _. completion-Same k a))

  complete_if_known-Same :
      (k : String) (a : Option AlertState)
      → Same (complete_if_known S k a) (λ clock. complete_if_known (T clock) k a)
  complete_if_known-Same k none = sim.raises parent_alert_state_not_found
  complete_if_known-Same k (some a) = complete_parent_resolution-Same k a

  check_pending-Same :
      (k : String) (p : Option PendingResolve)
      → RecentPending p
      → Same (check_pending S k p) (λ clock. check_pending (T clock) k p)
  check_pending-Same k none recent = sim.returns tt tt
  check_pending-Same k (some p) recent = sim.binds _ _ _ _ (alike.count_active_children _) (λ n _.
      if-Same (ltb 0 n) (alike.set_pending_resolve _ _ (alike.recent p recent))
        (sim.binds _ _ _ _ (alike.get_alert _) (λ a _. complete_if_known-Same k a)))

  check_parent_resolution-Same :
      (k : String)
      → Same (check_parent_resolution S k) (λ clock. check_parent_resolution (T clock) k)
  unfolding check_parent_resolution
  check_parent_resolution-Same k =
      sim.binds _ _ _ _ (alike.get_pending_resolve _) (λ p recent. check_pending-Same k p recent)

  resolve_child_alert-Same :
      (event : InternalEvent) (a : AlertState)
      → Same (resolve_child_alert S event a) (λ clock. resolve_child_alert (T clock) event a)
  unfolding resolve_child_alert
  resolve_child_alert-Same event a = sim.binds _ _ _ _ (alike.set_alert _) (λ _ _.
      sim.binds _ _ _ _ (alike.get_by_dedup_key _) (λ alert _. sim.binds _ _ _ _ alike.now (λ now _.
        sim.binds _ _ _ _ (alike.update _) (λ _ _.
          if-Same (not (a.parent_dedup_key == "")) (check_parent_resolution-Same a.parent_dedup_key)
            (sim.returns tt tt)))))

  request_resolution-Same :
      (event : InternalEvent) (a : AlertState) (n : ℕ)
      → Same (request_resolution S event a n) (λ clock. request_resolution (T clock) event a n)
  unfolding request_resolution
  request_resolution-Same event a n = sim.binds _ _ _ _ (alike.set_alert _) (λ _ _.
      sim.binds _ _ _ _ alike.now (λ requested_at recent.
        sim.binds _ _ _ _ (alike.set_pending_resolve _ _ recent) (λ _ _.
          sim.binds _ _ _ _ (alike.get_by_dedup_key _)
            (λ alert _. sim.binds _ _ _ _ alike.now (λ now _. alike.update _)))))

  resolve_parent_alert-Same :
      (event : InternalEvent) (a : AlertState)
      → Same (resolve_parent_alert S event a) (λ clock. resolve_parent_alert (T clock) event a)
  unfolding resolve_parent_alert
  resolve_parent_alert-Same event a = sim.binds _ _ _ _ (alike.count_active_children _) (λ n _.
      if-Same (ltb 0 n) (request_resolution-Same event a n)
        (complete_parent_resolution-Same event.dedup_key a))

  resolve_existing-Same :
      (event : InternalEvent) (a : Option AlertState)
      → Same (resolve_existing S event a) (λ clock. resolve_existing (T clock) event a)
  resolve_existing-Same event none = sim.returns tt tt
  resolve_existing-Same event (some a) =
      if-Same (a.status == alert_status_resolved) (sim.returns tt tt) (
        if-Same (a.type == alert_type_child) (resolve_child_alert-Same event a)
          (resolve_parent_alert-Same event a))

  handle_resolve-Same :
      (event : InternalEvent)
      → Same (handle_resolve S event) (λ clock. handle_resolve (T clock) event)
  unfolding handle_resolve
  handle_resolve-Same event =
      sim.binds _ _ _ _ (alike.get_alert _) (λ a _. resolve_existing-Same event a)

  handle_event-Same :
      (event : InternalEvent) → Same (handle_event S event) (λ clock. handle_event (T clock) event)
  unfolding handle_event
  handle_event-Same event =
      if-Same (event.action == action_trigger) (handle_trigger-Same event)
        (if-Same (event.action == action_resolve) (handle_resolve-Same event) (sim.returns tt tt))

  pub handle_decoded-Same :
      (event : Option InternalEvent)
      → Same (handle_decoded S event) (λ clock. handle_decoded (T clock) event)
  handle_decoded-Same none = sim.returns tt tt
  handle_decoded-Same (some event) = handle_event-Same event
