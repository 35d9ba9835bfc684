-- ===== src/Processor/Resolution.antt =====
-- When a parent resolves: no child of it is active then.
use argus_go.Base.{suc, String, some, ◌≡◌, refl, arith, eq_iff}
use argus_go.Base.Map.{get}
use argus_go.Domain.{Alert, InternalEvent, resolve, increment_child_count, mark_resolve_requested}
use argus_go.Memory.Alerts.{count_active_children, create}
use argus_go.Memory.Alerts.Invariant.{get-create, IsIndexed}
use argus_go.Processor.{handle_event}
use argus_go.Processor.World.{World, Outside, service}
use argus_go.Processor.Writes.{Replaces, active-overwrite}
use argus_go.Processor.Kept.{Inv, child_resolved-IsConsistent}
use argus_go.Processor.Frame.{get-parent_resolved, repo-notified}
use argus_go.Processor.Runs.{reactivated, parent_resolved, new_parent_of, new_child_of}
use argus_go.Processor.Changes.{
  Stored, Change, idle, opened, joined, revived, asked, finished, closed, counted_down, completed,
  child_closed, ticked, handle_event-Change,
}

-- Resolving a parent changes no count of active children.
pub active-parent_resolved :
    (o : Outside) (b : Alert) (w : World) (k : String)
    → IsIndexed w.repo
    → get w.repo.by_dedup_key b.dedup_key ≡ some b
    → b.type ≡ "parent"
    → count_active_children k (parent_resolved o b w).repo ≡ count_active_children k w.repo
active-parent_resolved o b w k index there type =
    let a = resolve b (o.clock w.ticks) in
    let rep : Replaces w.repo b a = record {
      there = there;
      id = refl;
      type = refl;
      parent = refl;
    } in
    rw (repo-notified o a) (
      ground
        (arith, active-overwrite b a rep index k, eq_iff b.type "child", eq_iff "parent" "child"))

module _ (o : Outside) (event : InternalEvent) (w : World) (v : Inv o w) (k : String) (b a : Alert)
    (before : Stored w k b) (type : b.type ≡ "parent") (active : b.status ≡ "active")
    (resolved : a.status ≡ "resolved") where
  Change-done : {u : World} → Change o event w u → Stored u k a → count_active_children k u.repo ≡ 0
  Change-done (idle why) after = ground (arith, eq_iff "active" "resolved")
  Change-done (opened em rule action known missing shut) after =
      ground
        (arith, get-create w.repo (new_parent_of o event (ticked w)) k, eq_iff "active" "resolved")
  Change-done (joined em rule p c action known missing is_open there its_type) after =
      let new = new_child_of o event p (ticked w) in
      let c' = increment_child_count c (o.clock (suc (suc w.ticks))) in
      ground (
        arith,
        get-create w.repo new k,
        get-create (create new w.repo) c' k,
        v.consistent.index.keyed _ c there,
        eq_iff c.dedup_key k,
        eq_iff "active" "resolved",
      )
  Change-done (revived c action there status) after =
      ground (arith, get-create w.repo (reactivated o c w) k, eq_iff "active" "resolved")
  Change-done (asked c action there its_type status more) after = ground (
    arith,
    get-create w.repo (mark_resolve_requested c (o.clock (suc w.ticks))) k,
    eq_iff "active" "resolved",
  )
  Change-done (finished c action there its_type status nobody) after =
      let key = v.consistent.index.keyed _ c there in
      ground (
        arith,
        get-parent_resolved o c w k,
        eq_iff c.dedup_key k,
        eq_iff "active" "resolved",
        active-parent_resolved o c w k v.consistent.index (cc (key, there)) its_type,
      )
  Change-done (closed c action there its_type status alone) after = ground (
    arith,
    get-create w.repo (resolve c (o.clock w.ticks)) k,
    eq_iff c.dedup_key k,
    v.consistent.index.keyed _ c there,
    eq_iff "active" "resolved",
    eq_iff "parent" "child",
  )
  Change-done (counted_down c q action there its_type status waits more) after = ground (
    arith,
    get-create w.repo (resolve c (o.clock w.ticks)) k,
    eq_iff c.dedup_key k,
    v.consistent.index.keyed _ c there,
    eq_iff "active" "resolved",
    eq_iff "parent" "child",
  )
  Change-done (completed c p action there its_type status stored parent still waits last) after =
      let next = child_closed o event w c in
      let key = v.consistent.index.keyed _ c there in
      let later = child_resolved-IsConsistent v c (cc (there, key)) its_type in
      let its_key = later.index.keyed _ p stored in
      ground (
        arith,
        get-create w.repo (resolve c (o.clock w.ticks)) k,
        get-parent_resolved o p next k,
        key,
        its_key,
        eq_iff p.dedup_key k,
        eq_iff c.dedup_key k,
        eq_iff "active" "resolved",
        eq_iff "parent" "child",
        active-parent_resolved o p next k later.index (cc (stored, its_key)) parent,
      )

-- Where the invariant holds, a parent alert that a message takes from active to resolved has no
-- active child afterwards.
pub resolved-parent-has_no_active_child :
    (o : Outside) (event : InternalEvent) (w : World) (k : String) (b a : Alert)
    → Inv o w
    → Stored w k b
    → b.type ≡ "parent"
    → b.status ≡ "active"
    → Stored (handle_event (service o) event w).1 k a
    → a.status ≡ "resolved"
    → count_active_children k (handle_event (service o) event w).1.repo ≡ 0
resolved-parent-has_no_active_child o event w k b a v before type active after resolved =
    Change-done o event w v k b a before type active resolved (handle_event-Change o event w v)
      after
