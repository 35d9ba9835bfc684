-- ===== src/Processor/Stored.antt =====
-- `handleMessage` decided by the stored alerts: what internal/processor/service.go looks up among the
-- cached states and the pending resolves is read here from the alerts of the repository.
use argus_go.Base.{
  String, Option, none, some, ◌≡◌, inl, inr, refl, arith, eq_iff, ◌==◌, if◌then◌else◌, ok, ltb,
  Option-cases, Bool-cases,
}
use argus_go.Base.Map.{get}
use argus_go.Domain.{Alert, InternalEvent, resolve}
use argus_go.Store.{PendingResolve}
use argus_go.Memory.Alerts.{count_active_children}
use argus_go.Processor.{handle_event}
use argus_go.Processor.World.{World, Outside, service}
use argus_go.Processor.Invariant.{IsConsistent}
use argus_go.Processor.Kept.{Inv, child_resolved-IsConsistent}
use argus_go.Processor.Runs.{write, requested, parent_resolved}
use argus_go.Processor.Handled.{recounted, child_settled}
use argus_go.Processor.Reference.{
  Outcome, reference, resolving, triggered, handle_event-eq-reference,
}

module _ (o : Outside) where
  -- The pending resolve of a parent that goes on waiting gets the number of its active children.
  abbrev pub counted_down : String → Option PendingResolve → World → World
  counted_down k none w = w
  counted_down k (some q) w = recounted o k q w

  -- After a child of it has resolved, a stored parent whose resolution was asked for waits for its
  -- active children, or resolves.
  abbrev pub parent_told : String → Option Alert → World → World
  parent_told k none w = w
  parent_told k (some p) w =
      if p.resolve_requested
      then if ltb 0 (count_active_children k w.repo)
        then counted_down k (get w.states.pending_resolves k) w
        else parent_resolved o p w
      else w

  abbrev pub child_done : Alert → World → World
  child_done b w =
      if b.parent_dedup_key == ""
      then w
      else parent_told b.parent_dedup_key (get w.repo.by_dedup_key b.parent_dedup_key) w

  module _ (event : InternalEvent) where
    -- An active parent resolves once no child is active, an active child at once.
    abbrev pub resolved_by_alerts : World → Option Alert → World
    resolved_by_alerts w none = w
    resolved_by_alerts w (some b) =
        if b.status == "resolved"
        then w
        else if b.type == "child"
        then child_done b (write o (resolve b (o.clock w.ticks)) w)
        else if ltb 0 (count_active_children b.dedup_key w.repo)
        then requested o b w
        else parent_resolved o b w

    unfoldable pub by_alerts : World → Outcome
    by_alerts w =
        if event.action == "trigger"
        then triggered o event w (get w.repo.by_dedup_key event.dedup_key)
        else if event.action == "resolve"
        then (ok tt, resolved_by_alerts w (get w.repo.by_dedup_key event.dedup_key))
        else (ok tt, w)

  child_settled-eq-child_done :
      (w : World) (b : Alert)
      → IsConsistent o.uuid w.states w.repo w.used
      → child_settled o b w ≡ child_done b w
  child_settled-eq-child_done w b v =
      elim (Option-cases (get w.states.pending_resolves b.parent_dedup_key)) [
        | inl nobody ↦ elim (Option-cases (get w.repo.by_dedup_key b.parent_dedup_key)) [
          | inl missing ↦ ground (arith, nobody, missing)
          | inr (p, there) ↦ ground (arith, nobody, there, v.pending b.parent_dedup_key)
        ]
        | inr (q, waits) ↦ elim (Option-cases (get w.repo.by_dedup_key b.parent_dedup_key)) [
          | inl missing ↦ ground (arith, waits, missing, v.pending b.parent_dedup_key)
          | inr (p, there) ↦ ground (arith, waits, there, v.pending b.parent_dedup_key)
        ]
      ]

  module _ (event : InternalEvent) {w : World} (v : Inv o w) where
    resolving-eq-resolved_by_alerts :
        resolving o event w (get w.repo.by_dedup_key event.dedup_key)
        ≡ resolved_by_alerts event w (get w.repo.by_dedup_key event.dedup_key)
    resolving-eq-resolved_by_alerts =
        elim (Option-cases (get w.repo.by_dedup_key event.dedup_key)) [
          | inl missing ↦ rw missing refl
          | inr (b, there) ↦ elim (Bool-cases (b.type == "child")) [
            | inr other ↦ rw there (rw other refl)
            | inl child ↦
                let key : get w.repo.by_dedup_key b.dedup_key ≡ some b =
                  cc (there, v.consistent.index.keyed _ b there) in
                rw there (
                  rw child (
                    rw
                      (child_settled-eq-child_done (write o (resolve b (o.clock w.ticks)) w) b
                        (child_resolved-IsConsistent v b key ((eq_iff _ _).0 child)))
                      refl))
          ]
        ]

    -- Where the invariant holds, the processor ends with the result and the world of a handler that
    -- decides by the stored alerts: whether an alert is known, its type and status, and whether a parent
    -- waits for its children are read from the repository and not from the cached states and the pending
    -- resolves. Windows are read from the state store in both, and a parent that goes on waiting keeps
    -- the time of its pending resolve.
    pub handle_event-eq-by_alerts : handle_event (service o) event w ≡ by_alerts event w
    unfolding reference by_alerts
    handle_event-eq-by_alerts =
        rw (handle_event-eq-reference o event v) (rw resolving-eq-resolved_by_alerts refl)
