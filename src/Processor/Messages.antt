-- ===== src/Processor/Messages.antt =====
-- Every branch of `handleMessage` of internal/processor/service.go keeps the invariant.
use argus_go.Base.{
  suc, String, true, Option, none, some, ◌≡◌, inl, inr, refl, arith, eq_iff, ◌==◌, ltb,
  Option-cases, Result-cases, Bool-cases,
}
use argus_go.Base.Map.{get, get-put}
use argus_go.Domain.{Alert, InternalEvent, resolve, EventManager, GroupingRule}
use argus_go.Store.{ParentState, PendingResolve}
use argus_go.Memory.States.{parent_key}
use argus_go.Memory.Alerts.{count_active_children}
use argus_go.Memory.EventManagers
use argus_go.Memory.EventManagers.{MemoryEventManagerRepository}
use argus_go.Memory.GroupingRules
use argus_go.Memory.GroupingRules.{MemoryGroupingRuleRepository}
use argus_go.Processor.{handle_event}
use argus_go.Processor.World.{World, Outside, service}
use argus_go.Processor.Invariant.{IsConsistent, IsCounted}
use argus_go.Processor.Counts.{IsWaitingBut}
use argus_go.Processor.Kept.{
  Inv, Distinct, parent_created-Inv, child_created-Inv, reactivated-Inv, requested-Inv,
  parent_resolved-Inv, child_resolved-IsConsistent, child_resolved-IsCounted,
  child_resolved-IsWaitingBut, child_resolved-IsWaiting,
}
use argus_go.Processor.Runs.{write}
use argus_go.Processor.Handled.{settled, child_settled, recounted, resolved_if}
use argus_go.Processor.Reference.{
  reference, resolving, triggered, linked_to, HasParent, parent_stored, handle_event-eq-reference,
}

module _ (o : Outside) where
  module _ (w : World) (p : String) (v : IsConsistent o.uuid w.states w.repo w.used)
      (counted : IsCounted w.repo) (waiting : IsWaitingBut p w.repo) where
    settled_idle-Inv : get w.states.pending_resolves p ≡ none → Inv o w
    settled_idle-Inv idle = record {
      consistent = v;
      counted = counted;
      waiting = λ k. ground (arith, waiting k, eq_iff k p, v.pending p);
    }

    recounted-Inv :
        (q : PendingResolve)
        → get w.states.pending_resolves p ≡ some q
        → ltb 0 (count_active_children p w.repo) ≡ true
        → Inv o (recounted o p q w)
    recounted-Inv q there more = record {
      consistent = record {
        index = v.index;
        coherent = v.coherent;
        fresh = v.fresh;
        shaped = v.shaped;
        linked = v.linked;
        entries = v.entries;
        pending = λ k. ground (
          arith,
          v.pending k,
          eq_iff p k,
          get-put w.states.pending_resolves p k
              (record q { remaining_children = count_active_children p w.repo }),
        );
      };
      counted = counted;
      waiting = λ k. ground (arith, waiting k, eq_iff k p);
    }

    last-Inv :
        (q : PendingResolve)
        → get w.states.pending_resolves p ≡ some q
        → Inv o (resolved_if o (get w.repo.by_dedup_key p) w)
    last-Inv q there = elim (Option-cases (get w.repo.by_dedup_key p)) [
      | inl missing ↦ absurd (ground (arith, v.pending p))
      | inr (b, stored) ↦
          let key = v.index.keyed p b stored in
          let shape = v.shaped p b stored in
          let type : b.type ≡ "parent" = ground (arith, v.pending p) in
          rw stored (
            parent_resolved-Inv o w v counted b (cc (key, stored)) type
              (λ k ne. waiting k (λ e. ne (cc (e, key)))))
    ]

    -- Settling a parent's resolution restores what the child's resolution broke.
    settled-Inv : Inv o (settled o p w)
    settled-Inv = elim (Option-cases (get w.states.pending_resolves p)) [
      | inl idle ↦ rw idle (settled_idle-Inv idle)
      | inr (q, there) ↦ elim (Bool-cases (ltb 0 (count_active_children p w.repo))) [
        | inl more ↦ rw there (rw more (recounted-Inv q there more))
        | inr last ↦ rw there (rw last (last-Inv q there))
      ]
    ]

  module _ (event : InternalEvent) (w : World) (v : Inv o w) where
    child_settled-Inv :
        (b : Alert)
        → get w.repo.by_dedup_key b.dedup_key ≡ some b
        → b.type ≡ "child"
        → Inv o (child_settled o b (write o (resolve b (o.clock w.ticks)) w))
    child_settled-Inv b there type =
        let next = write o (resolve b (o.clock w.ticks)) w in
        let consistent = child_resolved-IsConsistent v b there type in
        let counted = child_resolved-IsCounted v b there type in
        elim (Bool-cases (b.parent_dedup_key == "")) [
          | inl orphan ↦ rw orphan (record {
            consistent = consistent;
            counted = counted;
            waiting = child_resolved-IsWaiting v b there type orphan;
          })
          | inr has_parent ↦ rw has_parent (
              settled-Inv next b.parent_dedup_key consistent counted
                (child_resolved-IsWaitingBut v b there type))
        ]

    resolving_stored-Inv :
        (b : Alert)
        → get w.repo.by_dedup_key b.dedup_key ≡ some b
        → Inv o (resolving o event w (some b))
    resolving_stored-Inv b there =
        let shape = v.consistent.shaped b.dedup_key b there in
        elim (Bool-cases (b.status == "resolved")) [
          | inl done ↦ rw done v
          | inr open_yet ↦ elim (Bool-cases (b.type == "child")) [
            | inl child ↦
                rw open_yet (rw child (child_settled-Inv b there ((eq_iff b.type "child").0 child)))
            | inr other ↦
                let type : b.type ≡ "parent" = ground (arith, eq_iff b.type "child") in
                let status : b.status ≡ "active" = ground (arith, eq_iff b.status "resolved") in
                elim (Bool-cases (ltb 0 (count_active_children b.dedup_key w.repo))) [
                  | inl more ↦
                      rw open_yet
                        (rw other (rw more (requested-Inv v b there type status (ground arith))))
                  | inr none_left ↦ rw open_yet (
                      rw other (
                        rw none_left (
                          parent_resolved-Inv o w v.consistent v.counted b there type
                            (λ k _. v.waiting k))))
                ]
          ]
        ]

    resolving-Inv : Inv o (resolving o event w (get w.repo.by_dedup_key event.dedup_key))
    resolving-Inv = elim (Option-cases (get w.repo.by_dedup_key event.dedup_key)) [
      | inl missing ↦ rw missing v
      | inr (b, stored) ↦
          rw stored (
            resolving_stored-Inv b (cc (stored, v.consistent.index.keyed event.dedup_key b stored)))
    ]

    linked_to-Inv :
        (rule : GroupingRule) (em : EventManager)
        → Distinct o
        → get w.repo.by_dedup_key event.dedup_key ≡ none
        → (q : Option ParentState) → ((p : ParentState) → q ≡ some p → HasParent w p.dedup_key)
        → Inv o (linked_to o event rule em w q)
    linked_to-Inv rule em distinct missing none stored =
        parent_created-Inv v event rule em distinct missing
    linked_to-Inv rule em distinct missing (some p) stored =
        let (b, there, type) = stored p refl in
        rw there (child_created-Inv v event p b distinct missing there type)

  -- Reading the clock keeps the invariant.
  pub ticked-Inv : {w : World} → Inv o w → Inv o (record w { ticks = suc w.ticks })
  ticked-Inv v = record { consistent = v.consistent; counted = v.counted; waiting = v.waiting }

  module _ (event : InternalEvent) (w : World) (v : Inv o w) (distinct : Distinct o) where
    triggered_fresh-Inv :
        get w.repo.by_dedup_key event.dedup_key ≡ none → Inv o (triggered o event w none).1
    triggered_fresh-Inv missing =
        elim (Result-cases (EventManagers.get_by_id event.event_manager_id w.event_managers)) [
          | inr (e, no_em) ↦ rw no_em v
          | inl (em, has_em) ↦
              elim (Result-cases (GroupingRules.get_by_id em.grouping_rule_id w.grouping_rules)) [
                | inr (e, no_rule) ↦ rw has_em (rw no_rule v)
                | inl (rule, has_rule) ↦ rw has_em (
                    rw has_rule (
                      linked_to-Inv event (record w { ticks = suc w.ticks }) (ticked-Inv v) rule em
                        distinct missing _
                        (parent_stored o event w v.consistent
                          (parent_key event.event_manager_id rule.grouping_key event.grouping_value)
                          (o.clock w.ticks))))
              ]
        ]

    triggered-Inv : Inv o (triggered o event w (get w.repo.by_dedup_key event.dedup_key)).1
    triggered-Inv = elim (Option-cases (get w.repo.by_dedup_key event.dedup_key)) [
      | inl missing ↦ rw missing (triggered_fresh-Inv missing)
      | inr (b, stored) ↦ elim (Bool-cases (b.status == "resolved")) [
        | inl done ↦ rw stored (
            rw done (
              reactivated-Inv v b (cc (stored, v.consistent.index.keyed event.dedup_key b stored))
                ((eq_iff b.status "resolved").0 done)))
        | inr open_yet ↦ rw stored (rw open_yet v)
      ]
    ]

    reference-Inv : Inv o (reference o event w).1
    unfolding reference
    reference-Inv = elim (Bool-cases (event.action == "trigger")) [
      | inl trigger ↦ rw trigger triggered-Inv
      | inr other ↦ elim (Bool-cases (event.action == "resolve")) [
        | inl resolves ↦ rw other (rw resolves (resolving-Inv event w v))
        | inr unknown ↦ rw other (rw unknown v)
      ]
    ]

    pub handle_event-Inv : Inv o (handle_event (service o) event w).1
    handle_event-Inv = rw (handle_event-eq-reference o event v) reference-Inv
