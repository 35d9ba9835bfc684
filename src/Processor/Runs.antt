-- ===== src/Processor/Runs.antt =====
-- What each method of the processor leaves behind over the in-memory stores.
use argus_go.Base.{suc, String, false, none, some, ◌≡◌, refl, arith, eq_iff, Result, ok, err}
use argus_go.Base.Int.{◌+ℤ◌}
use native.Mathlib.Nat.{le_refl}
use argus_go.Base.Map.{get, put, delete, get-put}
use argus_go.Domain.{
  Alert, InternalEvent, EventManager, GroupingRule, new_parent_alert, new_child_alert, resolve,
  mark_resolve_requested, increment_child_count, time_window,
}
use argus_go.Store.{ParentState}
use argus_go.Memory.States.{ParentEntry, parent_key, add_child}
use argus_go.Memory.Alerts.{MemoryAlertRepository, count_active_children, create}
use argus_go.Memory.EventManagers.{get_by_id}
use argus_go.Memory.Alerts.Invariant.{create-IsIndexed, update-eq-create}
use argus_go.Notification
use argus_go.Processor.{
  create_parent_alert, create_child_alert, reactivate_alert, complete_parent_resolution,
  request_resolution,
}
use argus_go.Processor.World.{World, Outside, service}
use argus_go.Processor.Invariant.{IsConsistent, state_of}
use argus_go.Processor.Writes.{cache}

-- A write under a new key leaves the stored alerts alone.
pub get-create_other :
    (r : MemoryAlertRepository) (a : Alert) (k : String) {b : Alert}
    → get r.by_dedup_key a.dedup_key ≡ none
    → get r.by_dedup_key k ≡ some b
    → get (create a r).by_dedup_key k ≡ some b
unfolding create
get-create_other r a k new_key there =
    ground (arith, get-put r.by_dedup_key a.dedup_key k a, eq_iff a.dedup_key k)

module _ (o : Outside) where
  -- The alerts that the methods write.
  abbrev pub new_parent_of : InternalEvent → World → Alert
  new_parent_of event w = record (new_parent_alert event.event (o.clock w.ticks)) {
    id = o.uuid w.used;
  }

  abbrev pub new_child_of : InternalEvent → ParentState → World → Alert
  new_child_of event p w = record (new_child_alert event.event p.dedup_key (o.clock w.ticks)) {
    id = o.uuid w.used;
  }

  abbrev pub reactivated : Alert → World → Alert
  reactivated b w = record b {
    status = "active";
    resolve_requested = false;
    resolved_at = none;
    updated_at = o.clock w.ticks;
  }

  -- `a` written to the cache and to the repository.
  abbrev pub write : Alert → World → World
  write a w = record w {
    states = cache a w.states.pending_resolves w.states;
    repo = create a w.repo;
    ticks = suc w.ticks;
  }

  -- The entry that opens the grouping window of a new parent.
  abbrev pub entry_of : InternalEvent → GroupingRule → World → ParentEntry
  entry_of event rule w = record {
    state = record { dedup_key = event.dedup_key; created_at = o.clock w.ticks; child_count = 0 };
    expires_at = o.clock (suc w.ticks) +ℤ time_window rule;
  }

  abbrev pub parent_created : InternalEvent → GroupingRule → EventManager → World → World
  parent_created event rule em w =
      let a = new_parent_of event w in
      record w {
        states = record w.states {
          alerts = put w.states.alerts a.dedup_key (state_of a);
          parents =
              put w.states.parents
                (parent_key event.event_manager_id rule.grouping_key event.grouping_value)
                (entry_of event rule w);
        };
        repo = create a w.repo;
        log = Notification.notify_new_parent a em (o.clock (suc (suc w.ticks))) w.log;
        ticks = suc (suc (suc w.ticks));
        used = suc w.used;
      }

  pub create_parent_alert-run :
      (event : InternalEvent) (rule : GroupingRule) (em : EventManager) (w : World)
      → create_parent_alert (service o) event rule em w ≡ (ok tt, parent_created event rule em w)
  unfolding create_parent_alert
  create_parent_alert-run event rule em w = refl

  abbrev pub child_created : InternalEvent → ParentState → Alert → World → World
  child_created event p b w =
      let a = new_child_of event p w in
      record w {
        states = record (add_child p.dedup_key a.dedup_key w.states) {
          alerts = put w.states.alerts a.dedup_key (state_of a);
        };
        repo = create (increment_child_count b (o.clock (suc w.ticks))) (create a w.repo);
        ticks = suc (suc w.ticks);
        used = suc w.used;
      }

  -- What the methods of a resolution write.
  abbrev pub requested : Alert → World → World
  requested b w =
      let a = mark_resolve_requested b (o.clock (suc w.ticks)) in
      record w {
        states =
            cache a
              (put w.states.pending_resolves b.dedup_key (record {
                requested_at = o.clock w.ticks;
                remaining_children = count_active_children b.dedup_key w.repo;
              }))
              w.states;
        repo = create a w.repo;
        ticks = suc (suc w.ticks);
      }

  -- The notification of a resolution, if the event manager is still there.
  abbrev pub notified : Alert → Result EventManager → World → World
  notified a (err _) w = w
  notified a (ok em) w = record w {
    log = Notification.notify_resolved a em (o.clock w.ticks) w.log;
    ticks = suc w.ticks;
  }

  abbrev pub parent_resolved : Alert → World → World
  parent_resolved b w =
      let a = resolve b (o.clock w.ticks) in
      notified a (get_by_id b.event_manager_id w.event_managers) (record w {
        states = cache a (delete w.states.pending_resolves b.dedup_key) w.states;
        repo = create a w.repo;
        ticks = suc w.ticks;
      })

  module _ (w : World) (v : IsConsistent o.uuid w.states w.repo w.used) where
    pub create_child_alert-run :
        (event : InternalEvent) (p : ParentState) (rule : GroupingRule) (b : Alert)
        → get w.repo.by_dedup_key p.dedup_key ≡ some b
        → get w.repo.by_dedup_key event.dedup_key ≡ none
        → create_child_alert (service o) event p rule w ≡ (ok tt, child_created event p b w)
    unfolding create_child_alert
    create_child_alert-run event p rule b there new_key =
        let a = new_child_of event p w in
        let index = create-IsIndexed v.index a new_key (v.fresh w.used (le_refl w.used)) in
        let still : get (create a w.repo).by_dedup_key p.dedup_key ≡ some b =
          get-create_other w.repo a p.dedup_key new_key there in
        ground (
          arith,
          still,
          v.index.keyed p.dedup_key b,
          update-eq-create index b (increment_child_count b (o.clock (suc w.ticks))),
        )

    pub reactivate_alert-run :
        (event : InternalEvent) (b : Alert)
        → get w.repo.by_dedup_key event.dedup_key ≡ some b
        → reactivate_alert (service o) event (state_of b) w ≡ (ok tt, write (reactivated b w) w)
    unfolding reactivate_alert
    reactivate_alert-run event b there = ground (
      arith,
      there,
      v.index.keyed event.dedup_key b,
      update-eq-create v.index b (reactivated b w),
    )

    pub request_resolution-run :
        (event : InternalEvent) (b : Alert)
        → get w.repo.by_dedup_key event.dedup_key ≡ some b
        → request_resolution
            (service o)
            event
            (state_of b)
            (count_active_children event.dedup_key w.repo)
            w
          ≡ (ok tt, requested b w)
    unfolding request_resolution
    request_resolution-run event b there = ground (
      arith,
      there,
      v.index.keyed event.dedup_key b,
      update-eq-create v.index b (mark_resolve_requested b (o.clock (suc w.ticks))),
    )

    pub complete_parent_resolution-run :
        (b : Alert)
        → get w.repo.by_dedup_key b.dedup_key ≡ some b
        → complete_parent_resolution (service o) b.dedup_key (state_of b) w
          ≡ (ok tt, parent_resolved b w)
    unfolding complete_parent_resolution
    complete_parent_resolution-run b there =
        ground (arith, there, update-eq-create v.index b (resolve b (o.clock w.ticks)))
