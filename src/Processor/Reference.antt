-- ===== src/Processor/Reference.antt =====
-- A reference for `handleMessage` that reads alerts from the repository alone, where the processor
-- reads the state store's copies.
use argus_go.Base.{
  suc, String, Option, none, some, ◌≡◌, inl, inr, refl, arith, eq_iff, ◌==◌, if◌then◌else◌, Result,
  ok, err, ltb, ap, Option-cases, Result-cases,
}
use argus_go.Base.Map.{get}
use argus_go.Domain.{Alert, InternalEvent, resolve, Time, EventManager, GroupingRule}
use argus_go.Store.{ParentState}
use argus_go.Memory.States.{get_parent, unexpired, parent_key}
use argus_go.Memory.Alerts.{count_active_children}
use argus_go.Memory.EventManagers
use argus_go.Memory.GroupingRules
use argus_go.Processor.{link, trigger_existing, handle_event, handle_trigger, handle_resolve}
use argus_go.Processor.World.{World, Outside, service}
use argus_go.Processor.Invariant.{IsConsistent, HoldsParent}
use argus_go.Processor.Kept.{Inv}
use argus_go.Processor.Runs.{
  reactivated, write, parent_created, child_created, requested, parent_resolved,
  create_parent_alert-run, create_child_alert-run, reactivate_alert-run,
}
use argus_go.Processor.Handled.{child_settled, resolve_child_alert-run, resolve_parent_alert-run}

-- An alert of type parent is stored under the key.
abbrev pub HasParent : World → String → Type 0
HasParent w k = (b : Alert) × (get w.repo.by_dedup_key k ≡ some b) × (b.type ≡ "parent")

HoldsParent-stored :
    (q : Option Alert) → HoldsParent q → (b : Alert) × (q ≡ some b) × (b.type ≡ "parent")
HoldsParent-stored none h = absurd h
HoldsParent-stored (some b) h = (b, refl, h)

abbrev pub Outcome : Type 0
Outcome = Result (Unit {0}) × World

module _ (o : Outside) (event : InternalEvent) where
  -- A first trigger joins the parent whose window is open, or opens a window.
  abbrev pub joined_to : ParentState → World → Option Alert → World
  joined_to p w none = w
  joined_to p w (some b) = child_created o event p b w

  abbrev pub linked_to : GroupingRule → EventManager → World → Option ParentState → World
  linked_to rule em w none = parent_created o event rule em w
  linked_to rule em w (some p) = joined_to p w (get w.repo.by_dedup_key p.dedup_key)

  abbrev by_rule : EventManager → World → Result GroupingRule → Outcome
  by_rule em w (err e) = (err e, w)
  by_rule em w (ok rule) = (
    ok tt,
    linked_to rule em (record w { ticks = suc w.ticks })
        (get_parent event.event_manager_id rule.grouping_key event.grouping_value (o.clock w.ticks)
          w.states),
  )

  abbrev by_event_manager : World → Result EventManager → Outcome
  by_event_manager w (err e) = (err e, w)
  by_event_manager w (ok em) =
      by_rule em w (GroupingRules.get_by_id em.grouping_rule_id w.grouping_rules)

  abbrev pub triggered : World → Option Alert → Outcome
  triggered w none =
      by_event_manager w (EventManagers.get_by_id event.event_manager_id w.event_managers)
  triggered w (some b) =
      (ok tt, if b.status == "resolved" then write o (reactivated o b w) w else w)

  -- A parent resolves once no child is active, a child at once.
  abbrev pub resolving : World → Option Alert → World
  resolving w none = w
  resolving w (some b) =
      if b.status == "resolved"
      then w
      else if b.type == "child"
      then child_settled o b (write o (resolve b (o.clock w.ticks)) w)
      else if ltb 0 (count_active_children b.dedup_key w.repo)
      then requested o b w
      else parent_resolved o b w

  unfoldable pub reference : World → Outcome
  reference w =
      if event.action == "trigger"
      then triggered w (get w.repo.by_dedup_key event.dedup_key)
      else if event.action == "resolve"
      then (ok tt, resolving w (get w.repo.by_dedup_key event.dedup_key))
      else (ok tt, w)

  module _ (w : World) (v : IsConsistent o.uuid w.states w.repo w.used) where
    -- An entry that opens a window names a stored parent.
    pub parent_stored :
        (key : String) (now : Time) (p : ParentState)
        → unexpired now (get w.states.parents key) ≡ some p
        → HasParent w p.dedup_key
    parent_stored key now p e = elim (Option-cases (get w.states.parents key)) [
      | inl missing ↦ absurd (ground arith)
      | inr (entry, found) ↦
          let same : entry.state ≡ p = ground arith in
          rw (ap (λ (q : ParentState). q.dedup_key) same) at
            (HoldsParent-stored _ (v.entries key entry found))
    ]

    link-run :
        (rule : GroupingRule) (em : EventManager) (q : Option ParentState)
        → ((p : ParentState) → q ≡ some p → HasParent w p.dedup_key)
        → get w.repo.by_dedup_key event.dedup_key ≡ none
        → link (service o) event rule em q w ≡ (ok tt, linked_to rule em w q)
    link-run rule em none stored missing = create_parent_alert-run o event rule em w
    link-run rule em (some p) stored missing =
        let (b, there, _) = stored p refl in
        rw there (create_child_alert-run o w v event p rule b there missing)

  module _ {w : World} (v : Inv o w) where
    trigger_fresh-run :
        get w.repo.by_dedup_key event.dedup_key ≡ none
        → trigger_existing (service o) event none w ≡ triggered w none
    trigger_fresh-run missing =
        elim (Result-cases (EventManagers.get_by_id event.event_manager_id w.event_managers)) [
          | inr (e, no_em) ↦ rw no_em
          | inl (em, has_em) ↦
              elim (Result-cases (GroupingRules.get_by_id em.grouping_rule_id w.grouping_rules)) [
                | inr (e, no_rule) ↦ rw has_em (rw no_rule)
                | inl (rule, has_rule) ↦ rw has_em (
                    rw has_rule (
                      link-run (record w { ticks = suc w.ticks }) v.consistent rule em _
                        (parent_stored w v.consistent
                          (parent_key event.event_manager_id rule.grouping_key event.grouping_value)
                          (o.clock w.ticks))
                        missing))
              ]
        ]

    trigger-run :
        handle_trigger (service o) event w ≡ triggered w (get w.repo.by_dedup_key event.dedup_key)
    unfolding handle_trigger
    trigger-run = elim (Option-cases (get w.repo.by_dedup_key event.dedup_key)) [
      | inl missing ↦
          ground (arith, missing, v.consistent.coherent event.dedup_key, trigger_fresh-run missing)
      | inr (b, there) ↦ ground (
        arith,
        there,
        v.consistent.coherent event.dedup_key,
        reactivate_alert-run o w v.consistent event b there,
      )
    ]

    resolve-run :
        handle_resolve (service o) event w
        ≡ (ok tt, resolving w (get w.repo.by_dedup_key event.dedup_key))
    unfolding handle_resolve
    resolve-run = elim (Option-cases (get w.repo.by_dedup_key event.dedup_key)) [
      | inl missing ↦ ground (arith, missing, v.consistent.coherent event.dedup_key)
      | inr (b, there) ↦ ground (
        arith,
        there,
        v.consistent.coherent event.dedup_key,
        eq_iff b.type "child",
        resolve_child_alert-run o v event b there,
        resolve_parent_alert-run o v event b there,
      )
    ]

    -- Where the invariant holds, the processor ends with the result and the world of the reference,
    -- which reads alerts from the repository where the processor reads cached states. Pending resolves
    -- and windows are read from the state store in both.
    pub handle_event-eq-reference : handle_event (service o) event w ≡ reference w
    unfolding handle_event reference
    handle_event-eq-reference = ground (arith, trigger-run, resolve-run)
