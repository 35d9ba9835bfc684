-- ===== src/Processor/Frame.antt =====
-- What one message leaves alone.
use argus_go.Base.{
  suc, String, some, ◌≡◌, ◌≢◌, refl, arith, eq_iff, ◌==◌, if◌then◌else◌, Result, ok, err,
}
use argus_go.Base.Map.{get}
use argus_go.Domain.{
  Alert, InternalEvent, resolve, EventManager, increment_child_count, mark_resolve_requested,
}
use argus_go.Memory.Alerts.{create}
use argus_go.Memory.Alerts.Invariant.{get-create}
use argus_go.Processor.{handle_event}
use argus_go.Processor.World.{World, Outside, service}
use argus_go.Processor.Messages.{handle_event-Inv}
use argus_go.Processor.Kept.{Inv, Distinct, child_resolved-IsConsistent}
use argus_go.Processor.Runs.{reactivated, parent_resolved, notified, new_parent_of, new_child_of}
use argus_go.Processor.Changes.{
  Stored, Change, idle, opened, joined, revived, asked, finished, closed, counted_down, completed,
  child_closed, ticked, handle_event-Change,
}

pub repo-notified :
    (o : Outside) (a : Alert) (r : Result EventManager) (w : World)
    → (notified o a r w).repo ≡ w.repo
repo-notified o a (ok em) w = refl
repo-notified o a (err e) w = refl

-- A resolved parent is written under its key, and nothing else is.
pub get-parent_resolved :
    (o : Outside) (b : Alert) (w : World) (k : String)
    → get (parent_resolved o b w).repo.by_dedup_key k
      ≡ (if b.dedup_key == k then some (resolve b (o.clock w.ticks)) else get w.repo.by_dedup_key k)
get-parent_resolved o b w k =
    rw (repo-notified o (resolve b (o.clock w.ticks)))
      (get-create w.repo (resolve b (o.clock w.ticks)) k)

pub states-notified :
    (o : Outside) (a : Alert) (r : Result EventManager) (w : World)
    → (notified o a r w).states ≡ w.states
states-notified o a (ok em) w = refl
states-notified o a (err e) w = refl

module _ (o : Outside) (event : InternalEvent) (w : World) (v : Inv o w) (k : String)
    (other : k ≢ event.dedup_key) where
  Change-frame :
      {u : World}
      → Change o event w u
      → ((a : Alert) → Stored u event.dedup_key a → a.parent_dedup_key ≢ k)
      → get u.repo.by_dedup_key k ≡ get w.repo.by_dedup_key k
  Change-frame (idle why) stranger = refl
  Change-frame (opened em rule action known missing shut) stranger =
      ground
        (arith, get-create w.repo (new_parent_of o event (ticked w)) k, eq_iff event.dedup_key k)
  Change-frame (joined em rule p b action known missing is_open there type) stranger =
      let a = new_child_of o event p (ticked w) in
      let b' = increment_child_count b (o.clock (suc (suc w.ticks))) in
      ground (
        arith,
        get-create w.repo a k,
        get-create (create a w.repo) b' k,
        eq_iff event.dedup_key k,
        get-create w.repo a event.dedup_key,
        get-create (create a w.repo) b' event.dedup_key,
        eq_iff b.dedup_key k,
        eq_iff b.dedup_key event.dedup_key,
        eq_iff event.dedup_key event.dedup_key,
        v.consistent.index.keyed p.dedup_key b there,
        stranger a,
      )
  Change-frame (revived b action there status) stranger = ground (
    arith,
    get-create w.repo (reactivated o b w) k,
    v.consistent.index.keyed _ b there,
    eq_iff b.dedup_key k,
  )
  Change-frame (asked b action there type status more) stranger = ground (
    arith,
    get-create w.repo (mark_resolve_requested b (o.clock (suc w.ticks))) k,
    v.consistent.index.keyed _ b there,
    eq_iff b.dedup_key k,
  )
  Change-frame (finished b action there type status nobody) stranger =
      ground (
        arith,
        get-parent_resolved o b w k,
        v.consistent.index.keyed _ b there,
        eq_iff b.dedup_key k,
      )
  Change-frame (closed b action there type status alone) stranger = ground (
    arith,
    get-create w.repo (resolve b (o.clock w.ticks)) k,
    v.consistent.index.keyed _ b there,
    eq_iff b.dedup_key k,
  )
  Change-frame (counted_down b q action there type status waits more) stranger = ground (
    arith,
    get-create w.repo (resolve b (o.clock w.ticks)) k,
    v.consistent.index.keyed _ b there,
    eq_iff b.dedup_key k,
  )
  Change-frame (completed b p action there type status stored its_type still waits last) stranger =
      let next = child_closed o event w b in
      let after =
        child_resolved-IsConsistent v b (cc (there, v.consistent.index.keyed _ b there)) type in
      let closed_b = resolve b (o.clock w.ticks) in
      ground (
        arith,
        get-create w.repo closed_b k,
        get-create w.repo closed_b event.dedup_key,
        get-parent_resolved o p next k,
        get-parent_resolved o p next event.dedup_key,
        v.consistent.index.keyed _ b there,
        after.index.keyed _ p stored,
        eq_iff b.dedup_key k,
        eq_iff p.dedup_key k,
        eq_iff p.dedup_key event.dedup_key,
        eq_iff b.dedup_key event.dedup_key,
        eq_iff b.dedup_key p.dedup_key,
        get-create w.repo closed_b p.dedup_key,
        stranger closed_b,
        eq_iff "parent" "child",
      )

-- Where the invariant holds and no UUID comes twice, a message changes no alert but the one under
-- its key and that one's parent: every other alert is afterwards as it was, in the repository and in
-- the state store.
pub handle_event-frame :
    (o : Outside) (event : InternalEvent) (w : World) (k : String)
    → Distinct o
    → Inv o w
    → k ≢ event.dedup_key
    → ((a : Alert)
        → Stored (handle_event (service o) event w).1 event.dedup_key a
        → a.parent_dedup_key ≢ k)
    → (get (handle_event (service o) event w).1.repo.by_dedup_key k ≡ get w.repo.by_dedup_key k)
      × (get (handle_event (service o) event w).1.states.alerts k ≡ get w.states.alerts k)
handle_event-frame o event w k distinct v other stranger =
    let same = Change-frame o event w v k other (handle_event-Change o event w v) stranger in
    let after = handle_event-Inv o event w v distinct in
    (same, cc (same, after.consistent.coherent k, v.consistent.coherent k))
