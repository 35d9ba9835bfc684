-- ===== src/Processor/Kept.antt =====
-- Each method keeps the invariant.
use native.Mathlib.Nat.{le_refl}
use argus_go.Base.{
  ℕ, suc, ◌<◌, true, false, none, some, ◌≡◌, inl, inr, refl, arith, eq_iff, eq_refl, ◌==◌, Result,
  ok, err,
}
use argus_go.Base.Map.{get, get-put, get-delete}
use argus_go.Domain.{
  Alert, InternalEvent, GroupingRule, EventManager, increment_child_count, resolve,
  mark_resolve_requested,
}
use argus_go.Store.{ParentState}
use argus_go.Memory.States.{parent_key, add_child}
use argus_go.Memory.Alerts.{count_active_children, create}
use argus_go.Memory.EventManagers.{get_by_id}
use argus_go.Memory.Alerts.Invariant.{get-create, create-IsIndexed}
use argus_go.Processor.World.{World, Outside}
use argus_go.Processor.Invariant.{IsConsistent, IsCounted, IsWaiting}
use argus_go.Processor.Writes.{
  Replaces, overwrite-IsConsistent, create-IsConsistent, HoldsParent-new, refresh-IsConsistent,
  active-new, active-overwrite,
}
use argus_go.Processor.Counts.{
  IsWaitingBut, overwrite-IsCounted, overwrite-IsWaiting, overwrite-IsWaitingBut, create-IsWaiting,
  create_parent-IsCounted, create_child-IsCounted,
}
use argus_go.Processor.Runs.{
  new_parent_of, new_child_of, reactivated, write, parent_created, child_created, requested,
  parent_resolved, notified, get-create_other, entry_of,
}

-- The invariant of the world between two messages.
pub record Inv (o : Outside) (w : World) : Type 0 where
  pub consistent : IsConsistent o.uuid w.states w.repo w.used
  pub counted : IsCounted w.repo
  pub waiting : IsWaiting w.repo

-- Two UUIDs are never the same.
abbrev pub Distinct : Outside → Type 0
Distinct o = (m n : ℕ) → o.uuid m ≡ o.uuid n → m ≡ n

module _ {o : Outside} {w : World} (v : Inv o w) where
  pub parent_created-Inv :
      (event : InternalEvent) (rule : GroupingRule) (em : EventManager)
      → Distinct o
      → get w.repo.by_dedup_key event.dedup_key ≡ none
      → Inv o (parent_created o event rule em w)
  parent_created-Inv event rule em distinct new_key =
      let a = new_parent_of o event w in
      record {
        consistent =
            create-IsConsistent o.uuid v.consistent a _ _ distinct new_key refl
              (record { status = inl refl; type = inl refl; requested = λ e. cc }) refl
              (λ e. absurd (ground (arith, eq_iff "parent" "child")))
              (λ key e h. ground (
                arith,
                get-put w.states.parents
                    (parent_key event.event_manager_id rule.grouping_key event.grouping_value) key
                    (entry_of o event rule w),
                get-create w.repo a event.dedup_key,
                eq_refl event.dedup_key,
                v.consistent.entries key e,
                HoldsParent-new w.repo a new_key e.state.dedup_key,
              ));
        counted =
            create_parent-IsCounted w.repo a new_key v.consistent.index v.consistent.linked
              v.counted refl refl;
        waiting = create-IsWaiting w.repo a new_key v.consistent.index v.waiting refl;
      }

  pub child_created-Inv :
      (event : InternalEvent) (p : ParentState) (b : Alert)
      → Distinct o
      → get w.repo.by_dedup_key event.dedup_key ≡ none
      → get w.repo.by_dedup_key p.dedup_key ≡ some b
      → b.type ≡ "parent"
      → Inv o (child_created o event p b w)
  child_created-Inv event p b distinct new_key there parent =
      let a = new_child_of o event p w in
      let b' = increment_child_count b (o.clock (suc w.ticks)) in
      let key = v.consistent.index.keyed p.dedup_key b there in
      let index =
        create-IsIndexed v.consistent.index a new_key
          (v.consistent.fresh w.used (le_refl w.used)) in
      let shape = v.consistent.shaped p.dedup_key b there in
      let still : get (create a w.repo).by_dedup_key b.dedup_key ≡ some b =
        get-create_other w.repo a b.dedup_key new_key (cc (key, there)) in
      let rep : Replaces (create a w.repo) b b' = record {
        there = still;
        id = refl;
        type = refl;
        parent = refl;
      } in
      let consistent =
        create-IsConsistent o.uuid v.consistent a w.states.parents
          (add_child p.dedup_key a.dedup_key w.states).children distinct new_key refl
          (record { status = inl refl; type = inr refl; requested = λ e. cc }) refl
          (λ _. ground arith)
          (λ k e h.
            HoldsParent-new w.repo a new_key e.state.dedup_key (v.consistent.entries k e h)) in
      record {
        consistent = refresh-IsConsistent o.uuid consistent b b' rep refl;
        counted =
            create_child-IsCounted w.repo a new_key v.consistent.index b (o.clock (suc w.ticks))
              v.counted there key parent refl index;
        waiting =
            overwrite-IsWaiting index b b' rep
              (create-IsWaiting w.repo a new_key v.consistent.index v.waiting refl)
              (λ _. ground arith)
              (λ e. ground (
                arith,
                v.waiting b.dedup_key,
                active-new w.repo a new_key v.consistent.index b.dedup_key,
              ));
      }

  pub reactivated-Inv :
      (b : Alert)
      → get w.repo.by_dedup_key b.dedup_key ≡ some b
      → b.status ≡ "resolved"
      → Inv o (write o (reactivated o b w) w)
  reactivated-Inv b there status =
      let a = reactivated o b w in
      let shape = v.consistent.shaped b.dedup_key b there in
      let rep : Replaces w.repo b a = record {
        there = there;
        id = refl;
        type = refl;
        parent = refl;
      } in
      let idle : b.resolve_requested ≡ false = ground (arith, eq_iff "active" "resolved") in
      record {
        consistent =
            overwrite-IsConsistent o.uuid v.consistent b a _ rep
              (record { status = inl refl; type = shape.type; requested = λ e. cc })
              (λ k. ground (arith, eq_iff b.dedup_key k, v.consistent.pending k));
        counted = overwrite-IsCounted v.consistent.index b a rep v.counted refl;
        waiting =
            overwrite-IsWaiting v.consistent.index b a rep v.waiting (λ _. ground arith) (λ e. cc);
      }

  pub requested-Inv :
      (b : Alert)
      → get w.repo.by_dedup_key b.dedup_key ≡ some b
      → b.type ≡ "parent"
      → b.status ≡ "active"
      → 0 < count_active_children b.dedup_key w.repo
      → Inv o (requested o b w)
  requested-Inv b there type status some_active =
      let a = mark_resolve_requested b (o.clock (suc w.ticks)) in
      let rep : Replaces w.repo b a = record {
        there = there;
        id = refl;
        type = refl;
        parent = refl;
      } in
      record {
        consistent =
            overwrite-IsConsistent o.uuid v.consistent b a _ rep
              (record { status = inl status; type = inl type; requested = λ _. (type, status) })
              (λ k. ground (
                arith,
                get-put w.states.pending_resolves b.dedup_key k (record {
                  requested_at = o.clock w.ticks;
                  remaining_children = count_active_children b.dedup_key w.repo;
                }),
              ));
        counted = overwrite-IsCounted v.consistent.index b a rep v.counted refl;
        waiting =
            overwrite-IsWaiting v.consistent.index b a rep v.waiting (λ _. ground arith)
              (λ _. some_active);
      }

notified-Inv :
    (o : Outside) (a : Alert) (r : Result EventManager) (w : World)
    → Inv o w
    → Inv o (notified o a r w)
notified-Inv o a (ok em) w h = record {
  consistent = h.consistent;
  counted = h.counted;
  waiting = h.waiting;
}
notified-Inv o a (err e) w h = h

-- The end of a parent's resolution, also where that parent is the one that still waits.
module _ (o : Outside) (w : World) (v : IsConsistent o.uuid w.states w.repo w.used)
    (counted : IsCounted w.repo) (b : Alert) (there : get w.repo.by_dedup_key b.dedup_key ≡ some b)
    (type : b.type ≡ "parent") (waiting : IsWaitingBut b.dedup_key w.repo) where
  pub parent_resolved-Inv : Inv o (parent_resolved o b w)
  parent_resolved-Inv =
      let a = resolve b (o.clock w.ticks) in
      let rep : Replaces w.repo b a = record {
        there = there;
        id = refl;
        type = refl;
        parent = refl;
      } in
      notified-Inv o a (get_by_id b.event_manager_id w.event_managers) _ (record {
        consistent =
            overwrite-IsConsistent o.uuid v b a _ rep
              (record { status = inr refl; type = inl type; requested = λ e. cc })
              (λ k. ground (arith, get-delete w.states.pending_resolves b.dedup_key k));
        counted = overwrite-IsCounted v.index b a rep counted refl;
        waiting = λ k. ground (
          arith,
          active-overwrite b a rep v.index k,
          waiting k,
          eq_iff b.dedup_key k,
          get-create w.repo a k,
          eq_iff "parent" "child",
          eq_iff b.type "child",
        );
      })

-- A resolved child: its own parent may have no active child left.
module _ {o : Outside} {w : World} (v : Inv o w) (b : Alert)
    (there : get w.repo.by_dedup_key b.dedup_key ≡ some b) (type : b.type ≡ "child") where
  child_rep : Replaces w.repo b (resolve b (o.clock w.ticks))
  child_rep = record { there = there; id = refl; type = refl; parent = refl }

  pub child_idle : b.resolve_requested ≡ false
  child_idle =
      let shape = v.consistent.shaped b.dedup_key b there in ground (arith, eq_iff "parent" "child")

  pub child_resolved-IsConsistent :
      let w' = write o (resolve b (o.clock w.ticks)) w in
      IsConsistent o.uuid w'.states w'.repo w'.used
  child_resolved-IsConsistent =
      overwrite-IsConsistent o.uuid v.consistent b (resolve b (o.clock w.ticks)) _ child_rep
        (record { status = inr refl; type = inr type; requested = λ e. cc })
        (λ k. ground (arith, eq_iff b.dedup_key k, v.consistent.pending k, child_idle))

  pub child_resolved-IsCounted : IsCounted (write o (resolve b (o.clock w.ticks)) w).repo
  child_resolved-IsCounted =
      overwrite-IsCounted v.consistent.index b (resolve b (o.clock w.ticks)) child_rep v.counted
        refl

  pub child_resolved-IsWaitingBut :
      IsWaitingBut b.parent_dedup_key (write o (resolve b (o.clock w.ticks)) w).repo
  child_resolved-IsWaitingBut =
      overwrite-IsWaitingBut v.consistent.index b (resolve b (o.clock w.ticks)) child_rep v.waiting
        refl

  -- A child with no parent's key leaves no one waiting for it.
  pub child_resolved-IsWaiting :
      (b.parent_dedup_key == "") ≡ true → IsWaiting (write o (resolve b (o.clock w.ticks)) w).repo
  child_resolved-IsWaiting orphan =
      overwrite-IsWaiting v.consistent.index b (resolve b (o.clock w.ticks)) child_rep v.waiting
        (λ i. absurd (ground arith)) (λ e. cc)
