-- ===== src/Processor/Counts.antt =====
-- How the writes change the counts of children: `IsCounted` and `IsWaiting`.
use argus_go.Base.{
  suc, ◌≤◌, ◌<◌, String, true, false, none, some, ◌≡◌, ◌≢◌, inl, inr, refl, arith, eq_iff,
  if◌then◌else◌, Option-cases,
}
use argus_go.Base.Map.{get, size, one, size_of_empty}
use argus_go.Domain.{Alert, is_active, Time, increment_child_count}
use argus_go.Memory.Alerts.{MemoryAlertRepository, count_active_children, create, is_indexed}
use argus_go.Memory.Alerts.Index.{members, joins}
use argus_go.Memory.Alerts.Invariant.{IsIndexed, child_of, get-create}
use argus_go.Processor.Invariant.{IsCounted, IsWaiting, is_requested, HoldsParent}
use argus_go.Processor.Writes.{Replaces, size-overwrite, active-overwrite, size-new, active-new}

-- `IsWaiting` for every parent but one.
abbrev pub IsWaitingBut : String → MemoryAlertRepository → Type 0
IsWaitingBut p r =
    (k : String)
    → k ≢ p
    → is_requested (get r.by_dedup_key k) ≡ true
    → 0 < count_active_children k r

module _ {r : MemoryAlertRepository} (v : IsIndexed r) (b a : Alert) (rep : Replaces r b a) where
  pub overwrite-IsCounted : IsCounted r → a.child_count ≡ b.child_count → IsCounted (create a r)
  overwrite-IsCounted counted same k c named e t = ground (
    arith,
    size-overwrite b a rep v k,
    counted k c,
    counted a.dedup_key b,
    eq_iff a.dedup_key k,
    get-create r a k,
  )

  pub overwrite-IsWaiting :
      IsWaiting r
      → (is_indexed a ≡ true → one is_active b ≤ one is_active a)
      → (a.resolve_requested ≡ true → 0 < count_active_children a.dedup_key r)
      → IsWaiting (create a r)
  overwrite-IsWaiting waiting more own k =
      ground
        (arith, active-overwrite b a rep v k, waiting k, eq_iff a.dedup_key k, get-create r a k)

  pub overwrite-IsWaitingBut :
      IsWaiting r → a.resolve_requested ≡ false → IsWaitingBut a.parent_dedup_key (create a r)
  overwrite-IsWaitingBut waiting idle k ne = ground (
    arith,
    active-overwrite b a rep v k,
    waiting k,
    eq_iff a.dedup_key k,
    get-create r a k,
    eq_iff a.parent_dedup_key k,
  )

-- A new alert, that nobody waits for.
module _ (r : MemoryAlertRepository) (a : Alert) (new_key : get r.by_dedup_key a.dedup_key ≡ none)
    (v : IsIndexed r) where
  pub create-IsWaiting : IsWaiting r → a.resolve_requested ≡ false → IsWaiting (create a r)
  create-IsWaiting waiting idle k =
      ground (arith, active-new r a new_key v k, waiting k, eq_iff a.dedup_key k, get-create r a k)

  -- A key that holds no alert has no children, so a new parent starts from 0.
  pub create_parent-IsCounted :
      ((k : String) (c : Alert)
        → get r.by_dedup_key k ≡ some c
        → c.type ≡ "child"
        → HoldsParent (get r.by_dedup_key c.parent_dedup_key))
      → IsCounted r
      → a.type ≡ "parent"
      → a.child_count ≡ 0
      → IsCounted (create a r)
  create_parent-IsCounted linked counted parent zero_count k c named e t =
      let none_there : size (members a.dedup_key r.by_parent) ≡ 0 =
        size_of_empty _ (λ j. ground (arith, v.children a.dedup_key j, orphan j)) in
      ground (
        arith,
        none_there,
        size-new r a new_key v k,
        counted k c,
        eq_iff a.dedup_key k,
        get-create r a k,
        eq_iff a.type "child",
        eq_iff "parent" "child",
      )
    where
      orphan : (j : String) → child_of a.dedup_key (get r.by_dedup_key j) ≡ none
      orphan j = elim (Option-cases (get r.by_dedup_key j)) [
        | inl missing ↦ rw missing
        | inr (d, there) ↦ rw there (
            ground (
              arith,
              linked j d there,
              eq_iff d.type "child",
              eq_iff d.parent_dedup_key a.dedup_key,
            ))
      ]

  create_child-size :
      (k : String)
      → size (members k (create a r).by_parent)
        ≡ (if joins k a then suc (size (members k r.by_parent)) else size (members k r.by_parent))
  create_child-size k = size-new r a new_key v k

  -- A new child and the increment of its parent's count keep the counts.
  pub create_child-IsCounted :
      (b : Alert) (now : Time)
      → IsCounted r
      → get r.by_dedup_key a.parent_dedup_key ≡ some b
      → b.dedup_key ≡ a.parent_dedup_key
      → b.type ≡ "parent"
      → a.type ≡ "child"
      → IsIndexed (create a r)
      → IsCounted (create (increment_child_count b now) (create a r))
  create_child-IsCounted b now counted there key parent child index k c named e t =
      let b' = increment_child_count b now in
      let still : get (create a r).by_dedup_key b.dedup_key ≡ some b =
        ground (arith, get-create r a b.dedup_key, eq_iff a.dedup_key b.dedup_key) in
      let rep : Replaces (create a r) b b' = record {
        there = still;
        id = refl;
        type = refl;
        parent = refl;
      } in
      ground (
        arith,
        size-overwrite b b' rep index k,
        size-new r a new_key v k,
        counted k c,
        counted k b,
        eq_iff b.dedup_key k,
        eq_iff a.dedup_key k,
        eq_iff k "",
        eq_iff a.parent_dedup_key k,
        eq_iff a.type "child",
        eq_iff a.parent_dedup_key "",
        get-create r a k,
        get-create (create a r) b' k,
        eq_iff "parent" "child",
      )
