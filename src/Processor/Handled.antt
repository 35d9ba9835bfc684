-- ===== src/Processor/Handled.antt =====
-- The handlers as a whole: what a message leaves behind, on every path.
use argus_go.Base.{
  String, not, Option, none, some, ◌≡◌, inl, inr, arith, ◌==◌, if◌then◌else◌, ok, ltb, Option-cases,
}
use argus_go.Base.Map.{get}
use argus_go.Domain.{Alert, InternalEvent, resolve}
use argus_go.Store.{PendingResolve}
use argus_go.Memory.States
use argus_go.Memory.Alerts.{count_active_children}
use argus_go.Memory.Alerts.Invariant.{update-eq-create}
use argus_go.Processor.{
  check_parent_resolution, resolve_child_alert, resolve_parent_alert, complete_parent_resolution,
}
use argus_go.Processor.World.{World, Outside, service}
use argus_go.Processor.Invariant.{IsConsistent, state_of}
use argus_go.Processor.Kept.{Inv, child_resolved-IsConsistent, child_idle}
use argus_go.Processor.Runs.{
  write, requested, parent_resolved, request_resolution-run, complete_parent_resolution-run,
}

module _ (o : Outside) where
  abbrev pub resolved_if : Option Alert → World → World
  resolved_if none w = w
  resolved_if (some b) w = parent_resolved o b w

  abbrev pub recounted : String → PendingResolve → World → World
  recounted p q w = record w {
    states =
        States.set_pending_resolve p
          (record q { remaining_children = count_active_children p w.repo }) w.states;
  }

  abbrev pub settled_by : String → Option PendingResolve → World → World
  settled_by p none w = w
  settled_by p (some q) w =
      if ltb 0 (count_active_children p w.repo)
      then recounted p q w
      else resolved_if (get w.repo.by_dedup_key p) w

  -- What `checkParentResolution` leaves.
  abbrev pub settled : String → World → World
  settled p w = settled_by p (get w.states.pending_resolves p) w

  module _ (w : World) (v : IsConsistent o.uuid w.states w.repo w.used) where
    complete-at :
        (p : String) (b : Alert)
        → get w.repo.by_dedup_key p ≡ some b
        → complete_parent_resolution (service o) p (state_of b) w ≡ (ok tt, parent_resolved o b w)
    complete-at p b there =
        let key = v.index.keyed p b there in
        cc (key, complete_parent_resolution-run o w v b (cc (key, there)))

    pub check_parent_resolution-run :
        (p : String) → check_parent_resolution (service o) p w ≡ (ok tt, settled p w)
    unfolding check_parent_resolution
    check_parent_resolution-run p = elim (Option-cases (get w.repo.by_dedup_key p)) [
      | inl missing ↦ ground (arith, missing, v.pending p)
      | inr (b, there) ↦ ground (arith, there, v.coherent p, complete-at p b there)
    ]

  -- What `resolveChildAlert` leaves, after its own writes.
  abbrev pub child_settled : Alert → World → World
  child_settled b w = if not (b.parent_dedup_key == "") then settled b.parent_dedup_key w else w

  module _ {w : World} (v : Inv o w) (event : InternalEvent) (b : Alert)
      (there : get w.repo.by_dedup_key event.dedup_key ≡ some b) where
    pub resolve_child_alert-run :
        b.type ≡ "child"
        → resolve_child_alert (service o) event (state_of b) w
          ≡ (ok tt, child_settled b (write o (resolve b (o.clock w.ticks)) w))
    unfolding resolve_child_alert
    resolve_child_alert-run type =
        let key = v.consistent.index.keyed event.dedup_key b there in
        let there' : get w.repo.by_dedup_key b.dedup_key ≡ some b = cc (key, there) in
        let next = write o (resolve b (o.clock w.ticks)) w in
        ground (
          arith,
          there,
          child_idle v b there' type,
          update-eq-create v.consistent.index b (resolve b (o.clock w.ticks)),
          check_parent_resolution-run next (child_resolved-IsConsistent v b there' type)
              b.parent_dedup_key,
        )

    pub resolve_parent_alert-run : resolve_parent_alert (service o) event (state_of b) w ≡ (
      ok tt,
      (if ltb 0 (count_active_children b.dedup_key w.repo)
          then requested o b w
          else parent_resolved o b w),
    )
    unfolding resolve_parent_alert
    resolve_parent_alert-run = ground (
      arith,
      v.consistent.index.keyed event.dedup_key b,
      request_resolution-run o w v.consistent event b there,
      complete-at w v.consistent event.dedup_key b there,
    )
