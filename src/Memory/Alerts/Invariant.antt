-- ===== src/Memory/Alerts/Invariant.antt =====
-- The three maps of the alert repository agree.
use argus_go.Base.{String, Option, none, some, ◌≡◌, arith, eq_iff, eq_refl, ◌==◌, if◌then◌else◌, ok}
use argus_go.Base.Map.{get, get-put}
use argus_go.Domain.{Alert}
use argus_go.Memory.Alerts.{MemoryAlertRepository, create, update, update_found}
use argus_go.Memory.Alerts.Index.{members, joins, get-index_child}

-- The child that a lookup by key shows for the parent `p`.
abbrev pub child_of : String → Option Alert → Option Alert
child_of p none = none
child_of p (some a) = if joins p a then some a else none

pub record IsIndexed (r : MemoryAlertRepository) : Type 0 where
  pub keyed : (k : String) (a : Alert) → get r.by_dedup_key k ≡ some a → a.dedup_key ≡ k
  pub stored : (k : String) (a : Alert) → get r.by_dedup_key k ≡ some a → get r.alerts a.id ≡ some a
  pub children : (p k : String) → get (members p r.by_parent) k ≡ child_of p (get r.by_dedup_key k)

pub get-create :
    (r : MemoryAlertRepository) (a : Alert) (k : String)
    → get (create a r).by_dedup_key k ≡ (if a.dedup_key == k then some a else get r.by_dedup_key k)
unfolding create
get-create r a k = get-put r.by_dedup_key a.dedup_key k a

module _ {r : MemoryAlertRepository} (v : IsIndexed r) (a : Alert) where
  -- A new alert, under a key and an ID that are not in use.
  pub create-IsIndexed :
      get r.by_dedup_key a.dedup_key ≡ none → get r.alerts a.id ≡ none → IsIndexed (create a r)
  unfolding create
  create-IsIndexed new_key new_id = record {
    keyed = λ k b e.
        ground (arith, get-put r.by_dedup_key a.dedup_key k a, eq_iff a.dedup_key k, v.keyed k b);
    stored = λ k b e. ground (
      arith,
      get-put r.by_dedup_key a.dedup_key k a,
      get-put r.alerts a.id b.id a,
      eq_iff a.dedup_key k,
      eq_iff a.id b.id,
      eq_refl a.id,
      v.stored k b,
    );
    children = λ p k. ground (
      arith,
      get-index_child p a r.by_parent k,
      get-put r.by_dedup_key a.dedup_key k a,
      eq_iff a.dedup_key k,
      v.children p k,
    );
  }

-- `Update` of a stored alert with its ID and its parent kept writes as `Create` does.
module _ {r : MemoryAlertRepository} (v : IsIndexed r) (b a : Alert) where
  pub update-eq-create :
      get r.by_dedup_key a.dedup_key ≡ some b
      → a.id ≡ b.id
      → a.parent_dedup_key ≡ b.parent_dedup_key
      → update a r ≡ (ok tt, create a r)
  unfolding update_found create
  update-eq-create there same_id same_parent =
      ground (arith, v.stored a.dedup_key b there, eq_iff b.parent_dedup_key a.parent_dedup_key)

  pub overwrite-IsIndexed :
      get r.by_dedup_key a.dedup_key ≡ some b
      → a.id ≡ b.id
      → a.type ≡ b.type
      → a.parent_dedup_key ≡ b.parent_dedup_key
      → IsIndexed (create a r)
  unfolding create
  overwrite-IsIndexed there same_id same_type same_parent = record {
    keyed = λ k c e.
        ground (arith, get-put r.by_dedup_key a.dedup_key k a, eq_iff a.dedup_key k, v.keyed k c);
    stored = λ k c e. ground (
      arith,
      get-put r.by_dedup_key a.dedup_key k a,
      get-put r.alerts a.id c.id a,
      eq_iff a.dedup_key k,
      eq_iff a.id c.id,
      eq_refl a.id,
      v.stored a.dedup_key b there,
      v.keyed a.dedup_key b there,
      v.keyed k c,
      v.stored k c,
    );
    children = λ p k. ground (
      arith,
      get-index_child p a r.by_parent k,
      get-put r.by_dedup_key a.dedup_key k a,
      eq_iff a.dedup_key k,
      v.children p k,
    );
  }
