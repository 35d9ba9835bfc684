-- ===== src/Memory/Alerts/Index.antt =====
-- The index of children that `Create` and `Update` keep, `byParent`.
use argus_go.Base.{
  suc, ◌+◌, String, Bool, ◌&&◌, some, ◌≡◌, arith, eq_iff, ◌==◌, if◌then◌else◌, is_some,
}
use argus_go.Base.Map
use argus_go.Base.Map.{
  Map, or_empty, count, one, old, get, get-put, size, size-put, values, count-put,
}
use argus_go.Domain.{Alert, is_active}
use argus_go.Memory.Alerts.{is_indexed, index_child}

-- The children that the index lists for a parent.
abbrev pub members : String → Map (Map Alert) → Map Alert
members p m = or_empty (get m p)

-- Whether an alert belongs among the children of `p`.
abbrev pub joins : String → Alert → Bool
joins p a = is_indexed a && a.parent_dedup_key == p

module _ (p : String) (a : Alert) (m : Map (Map Alert)) where
  pub members-index_child :
      members p (index_child a m)
      ≡ (if joins p a then Map.put (members p m) a.dedup_key a else members p m)
  unfolding index_child
  members-index_child = ground (
    arith,
    eq_iff a.parent_dedup_key p,
    get-put m a.parent_dedup_key p (Map.put (members a.parent_dedup_key m) a.dedup_key a),
  )

  pub get-index_child :
      (j : String)
      → get (members p (index_child a m)) j
        ≡ (if joins p a && a.dedup_key == j then some a else get (members p m) j)
  get-index_child j = rw members-index_child (ground (arith, get-put (members p m) a.dedup_key j a))

  -- How the number of active children changes.
  pub active-index_child :
      count is_active (values (members p (index_child a m)))
        + (if joins p a then old is_active (get (members p m) a.dedup_key) else 0)
      ≡ count is_active (values (members p m)) + (if joins p a then one is_active a else 0)
  active-index_child =
      rw members-index_child (ground (arith, count-put is_active (members p m) a.dedup_key a))

  pub size-index_child : size (members p (index_child a m)) ≡ (
      if joins p a
      then (if is_some (get (members p m) a.dedup_key)
          then size (members p m)
          else suc (size (members p m)))
      else size (members p m))
  size-index_child = rw members-index_child (ground (arith, size-put (members p m) a.dedup_key a))
