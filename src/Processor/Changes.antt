-- ===== src/Processor/Changes.antt =====
-- The processor as a state machine: what one message can do to the world.
pub mod Kinds
use argus_go.Base.{
  true, none, ◌≡◌, inl, inr, arith, eq_iff, ◌==◌, if◌then◌else◌, ltb, Option-cases, Result-cases,
  Bool-cases,
}
use argus_go.Base.Map.{get}
use argus_go.Domain.{Alert, InternalEvent, EventManager, GroupingRule}
use argus_go.Memory.States.{parent_key}
use argus_go.Memory.Alerts.{count_active_children}
use argus_go.Memory.EventManagers
use argus_go.Memory.GroupingRules
use argus_go.Processor.{handle_event}
use argus_go.Processor.World.{World, Outside, service}
use argus_go.Processor.Kept.{Inv, child_resolved-IsConsistent}
use argus_go.Processor.Runs.{requested, parent_resolved}
use argus_go.Processor.Handled.{settled, child_settled}
use argus_go.Processor.Reference.{
  reference, resolving, triggered, linked_to, parent_stored, handle_event-eq-reference,
}
pub use argus_go.Processor.Changes.Kinds.{
  Stored, ticked, window, Configured, child_closed, Ignored, unknown_action, no_manager, no_rule,
  repeated, no_alert, resolved_before, Change, idle, opened, joined, revived, asked, finished,
  closed, counted_down, completed,
}

module _ (o : Outside) (event : InternalEvent) (w : World) (v : Inv o w) where
  linked-Change :
      (em : EventManager) (rule : GroupingRule)
      → event.action ≡ "trigger"
      → Configured event em rule w
      → get w.repo.by_dedup_key event.dedup_key ≡ none
      → Change o event w (linked_to o event rule em (ticked w) (window o event rule w))
  linked-Change em rule action known missing = elim (Option-cases (window o event rule w)) [
    | inl shut ↦ rw shut (opened em rule action known missing shut)
    | inr (p, is_open) ↦
        let (b, there, type) =
          parent_stored o event w v.consistent
            (parent_key event.event_manager_id rule.grouping_key event.grouping_value)
            (o.clock w.ticks) p is_open in
        rw is_open (rw there (joined em rule p b action known missing is_open there type))
  ]

  fresh-Change :
      event.action ≡ "trigger"
      → get w.repo.by_dedup_key event.dedup_key ≡ none
      → Change o event w (triggered o event w none).1
  fresh-Change action missing =
      elim (Result-cases (EventManagers.get_by_id event.event_manager_id w.event_managers)) [
        | inr (e, no_em) ↦ rw no_em (idle (no_manager e action missing no_em))
        | inl (em, has_em) ↦
            elim (Result-cases (GroupingRules.get_by_id em.grouping_rule_id w.grouping_rules)) [
              | inr (e, no_rules) ↦
                  rw has_em (rw no_rules (idle (no_rule em e action missing has_em no_rules)))
              | inl (rule, has_rule) ↦ rw has_em (
                  rw has_rule (
                    linked-Change em rule action
                      (record { its_manager = has_em; its_rule = has_rule }) missing))
            ]
      ]

  triggered-Change :
      event.action ≡ "trigger"
      → Change o event w (triggered o event w (get w.repo.by_dedup_key event.dedup_key)).1
  triggered-Change action = elim (Option-cases (get w.repo.by_dedup_key event.dedup_key)) [
    | inl missing ↦ rw missing (fresh-Change action missing)
    | inr (b, there) ↦ elim (Bool-cases (b.status == "resolved")) [
      | inl done ↦ rw there (rw done (revived b action there ((eq_iff _ _).0 done)))
      | inr open_yet ↦ rw there (
          rw open_yet (
            idle (
              repeated b action there (λ e. ground (arith, open_yet, eq_iff b.status "resolved")))))
    ]
  ]

  module _ (b : Alert) (action : event.action ≡ "resolve") (there : Stored w event.dedup_key b)
      (status : b.status ≡ "active") where
    settled-Change :
        b.type ≡ "child"
        → Change o event w (settled o b.parent_dedup_key (child_closed o event w b))
    settled-Change type =
        let next = child_closed o event w b in
        let key : Stored w b.dedup_key b = cc (there, v.consistent.index.keyed _ b there) in
        let after = child_resolved-IsConsistent v b key type in
        elim (Option-cases (get w.states.pending_resolves b.parent_dedup_key)) [
          | inl nobody ↦ rw nobody (
              closed b action there type status
                (inr (ground (arith, nobody, v.consistent.pending b.parent_dedup_key))))
          | inr (q, waits) ↦
              elim (Bool-cases (ltb 0 (count_active_children b.parent_dedup_key next.repo))) [
                | inl more ↦
                    rw waits
                      (rw more (counted_down b q action there type status waits (ground arith)))
                | inr last ↦ elim (Option-cases (get next.repo.by_dedup_key b.parent_dedup_key)) [
                  | inl missing ↦ absurd (ground (arith, after.pending b.parent_dedup_key))
                  | inr (p, stored) ↦
                      let asked_for : p.resolve_requested ≡ true =
                        ground (arith, after.pending b.parent_dedup_key) in
                      rw waits (
                        rw last (
                          rw stored (
                            completed b p action there type status stored
                              ((after.shaped _ p stored).requested asked_for).0
                              ((after.shaped _ p stored).requested asked_for).1 asked_for
                              (ground arith))))
                ]
              ]
        ]

    child-Change :
        b.type ≡ "child" → Change o event w (child_settled o b (child_closed o event w b))
    child-Change type = elim (Bool-cases (b.parent_dedup_key == "")) [
      | inl orphan ↦ rw orphan (closed b action there type status (inl ((eq_iff _ _).0 orphan)))
      | inr has_parent ↦ rw has_parent (settled-Change type)
    ]

    parent-Change :
        b.type ≡ "parent"
        → Change o event w (
            if ltb 0 (count_active_children b.dedup_key w.repo)
            then requested o b w
            else parent_resolved o b w)
    parent-Change type = elim (Bool-cases (ltb 0 (count_active_children b.dedup_key w.repo))) [
      | inl more ↦ rw more (asked b action there type status (ground arith))
      | inr nobody ↦ rw nobody (finished b action there type status (ground arith))
    ]

  resolving-Change :
      event.action ≡ "resolve"
      → Change o event w (resolving o event w (get w.repo.by_dedup_key event.dedup_key))
  resolving-Change action = elim (Option-cases (get w.repo.by_dedup_key event.dedup_key)) [
    | inl missing ↦ rw missing (idle (no_alert action missing))
    | inr (b, there) ↦
        let shape = v.consistent.shaped _ b there in
        elim (Bool-cases (b.status == "resolved")) [
          | inl done ↦
              rw there (rw done (idle (resolved_before b action there ((eq_iff _ _).0 done))))
          | inr open_yet ↦
              let status : b.status ≡ "active" = ground (arith, eq_iff b.status "resolved") in
              elim (Bool-cases (b.type == "child")) [
                | inl child ↦ rw there (
                    rw open_yet
                      (rw child (child-Change b action there status ((eq_iff _ _).0 child))))
                | inr other ↦ rw there (
                    rw open_yet (
                      rw other (
                        parent-Change b action there status
                          (ground (arith, eq_iff b.type "child")))))
              ]
        ]
  ]

  reference-Change : Change o event w (reference o event w).1
  unfolding reference
  reference-Change = elim (Bool-cases (event.action == "trigger")) [
    | inl trigger ↦ rw trigger (triggered-Change ((eq_iff _ _).0 trigger))
    | inr other ↦ elim (Bool-cases (event.action == "resolve")) [
      | inl resolves ↦ rw other (rw resolves (resolving-Change ((eq_iff _ _).0 resolves)))
      | inr unknown ↦ rw other (
          rw unknown (
            idle (
              unknown_action (λ e. ground (arith, other, eq_iff event.action "trigger"))
                (λ e. ground (arith, unknown, eq_iff event.action "resolve")))))
    ]
  ]

  -- From a world that satisfies the invariant, handling an event, failed or not, changes the world
  -- in one of the ways of Change, each with its conditions: nothing, where the action is unknown, the
  -- manager or its rule is missing for a first trigger, a triggered alert is not resolved, or a resolve
  -- finds no alert or a resolved one; a window opens; a child joins; a resolved alert comes back; a
  -- parent waits; a parent resolves; or an active child resolves, alone where it names no parent or its
  -- parent does not wait, and otherwise with the parent counted down, or resolved if it was the last.
  pub handle_event-Change : Change o event w (handle_event (service o) event w).1
  handle_event-Change = rw (handle_event-eq-reference o event v) reference-Change
