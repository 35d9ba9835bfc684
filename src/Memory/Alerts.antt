-- ===== src/Memory/Alerts.antt =====
-- internal/store/memory/alert_repository.go
pub mod Index
pub mod Invariant
pub mod Tidy
pub mod Pages
use argus_go.Base.{
  ℕ, String, Bool, not, ◌&&◌, ◌||◌, Option, none, some, List, [], ◌∷◌, Result, ok, err, ◌==◌,
  if◌then◌else◌,
}
use argus_go.Base.Effect.{alert_not_found}
use argus_go.Base.Int.{ℤ, pos, negsuc, ◌+ℤ◌, lt_ℤ, wrap64}
use argus_go.Base.Lists.{length, take, drop}
use argus_go.Base.Map
use argus_go.Base.Map.{Map, or_empty, count}
use argus_go.Domain.{Alert, AlertFilter, is_child, is_active}

pub record MemoryAlertRepository : Type 0 where
  pub alerts : Map Alert
  pub by_dedup_key : Map Alert
  pub by_parent : Map (Map Alert)

-- `NewAlertRepository`, and what `Clear` leaves.
abbrev pub new_alert_repository : MemoryAlertRepository
new_alert_repository = record {
  alerts = Map.empty;
  by_dedup_key = Map.empty;
  by_parent = Map.empty;
}

-- Whether `Create` and `Update` enter an alert in the index of children.
abbrev pub is_indexed : Alert → Bool
is_indexed a = is_child a && not (a.parent_dedup_key == "")

-- "Index children by parent" in `Create` and `Update`.
unfoldable pub index_child : Alert → Map (Map Alert) → Map (Map Alert)
index_child a m =
    if is_indexed a
    then Map.put m a.parent_dedup_key
        (Map.put (or_empty (Map.get m a.parent_dedup_key)) a.dedup_key a)
    else m

unfoldable pub create : Alert → MemoryAlertRepository → MemoryAlertRepository
create a r = record {
  alerts = Map.put r.alerts a.id a;
  by_dedup_key = Map.put r.by_dedup_key a.dedup_key a;
  by_parent = index_child a r.by_parent;
}

-- "Handle parent change" in `Update`: deleting from a map that is not there does nothing.
unfoldable pub unindex_moved : Alert → Alert → Map (Map Alert) → Map (Map Alert)
unindex_moved existing a m =
    if not (existing.parent_dedup_key == "")
      && not (existing.parent_dedup_key == a.parent_dedup_key)
    then (elim (Map.get m existing.parent_dedup_key) [
      | none ↦ m
      | some inner ↦ Map.put m existing.parent_dedup_key (Map.delete inner existing.dedup_key)
    ])
    else m

-- The rest of `Update`, once the lookup by ID has found `existing`.
unfoldable pub update_found : Alert → Alert → MemoryAlertRepository → MemoryAlertRepository
unfolding index_child unindex_moved
update_found existing a r = record {
  alerts = Map.put r.alerts a.id a;
  by_dedup_key = Map.put r.by_dedup_key a.dedup_key a;
  by_parent = unindex_moved existing a (index_child a r.by_parent);
}

abbrev pub update : Alert → MemoryAlertRepository → Result (Unit {0}) × MemoryAlertRepository
update a r = elim (Map.get r.alerts a.id) [
  | none ↦ (err alert_not_found, r)
  | some existing ↦ (ok tt, update_found existing a r)
]

-- A lookup that turns a missing entry into `ErrAlertNotFound`.
abbrev pub found : Option Alert → Result Alert
found none = err alert_not_found
found (some a) = ok a

abbrev pub get_by_id : String → MemoryAlertRepository → Result Alert
get_by_id id r = found (Map.get r.alerts id)

abbrev pub get_by_dedup_key : String → MemoryAlertRepository → Result Alert
get_by_dedup_key k r = found (Map.get r.by_dedup_key k)

-- The three filters of `List`; an empty text filters nothing.
unfoldable pub passes : AlertFilter → Alert → Bool
passes f a =
    (f.event_manager_id == "" || a.event_manager_id == f.event_manager_id)
    && ((f.status == "" || a.status == f.status) && (f.type == "" || a.type == f.type))

unfoldable pub select : (Alert → Bool) → List Alert → List Alert
select p [] = []
select p (a ∷ l) = let rest = select p l in if p a then a ∷ rest else rest

-- `results[start:end]`; `none` is the panic of a slice out of range.
unfoldable pub slice : List Alert → ℤ → ℤ → Option (List Alert)
slice l (pos i) (pos j) =
    if lt_ℤ (pos j) (pos i) || lt_ℤ (pos (length l)) (pos j) then none else some (drop i (take j l))
slice l (pos i) (negsuc j) = none
slice l (negsuc i) j = none

-- The offset and the limit of `List`; `start + filter.Limit` wraps around.
unfoldable pub page : AlertFilter → List Alert → Option (List Alert)
unfolding slice
page f l =
    let n = pos (length l) in
    let start = if lt_ℤ n f.offset then n else f.offset in
    let stop = wrap64 (start +ℤ f.limit) in
    slice l start (if lt_ℤ (pos 0) f.limit && lt_ℤ stop n then stop else n)

-- `order` is the order in which Go ranges over the map.
unfoldable pub list :
    (Map Alert → List Alert) → AlertFilter → MemoryAlertRepository → Option (List Alert)
unfolding passes select page
list order f r = page f (select (passes f) (order r.alerts))

abbrev pub get_children_by_parent :
    (Map Alert → List Alert) → String → MemoryAlertRepository → List Alert
get_children_by_parent order parent r = order (or_empty (Map.get r.by_parent parent))

-- The loop only counts, so the order of the map does not matter.
abbrev pub count_active_children : String → MemoryAlertRepository → ℕ
count_active_children parent r =
    count is_active (Map.values (or_empty (Map.get r.by_parent parent)))
