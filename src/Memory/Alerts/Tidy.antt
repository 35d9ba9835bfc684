-- ===== src/Memory/Alerts/Tidy.antt =====
-- The maps of children in internal/store/memory/alert_repository.go have no key twice, so that an
-- active child is found where one is counted.
use argus_go.Base.{◌<◌, String, true, some, ◌≡◌, inl, inr, arith, Bool-cases, Option-cases}
use argus_go.Base.Map.{get, Once, put-Once, picked}
use argus_go.Domain.{Alert, is_active}
use argus_go.Memory.Alerts.{
  MemoryAlertRepository, create, count_active_children, new_alert_repository,
}
use argus_go.Memory.Alerts.Index.{members, joins, members-index_child}
use argus_go.Memory.Alerts.Invariant.{IsIndexed}

abbrev pub IsTidy : MemoryAlertRepository → Type 0
IsTidy r = (p : String) → Once (members p r.by_parent)

pub new_alert_repository-IsTidy : IsTidy new_alert_repository
unfolding get
new_alert_repository-IsTidy p = tt

pub create-IsTidy : (a : Alert) (r : MemoryAlertRepository) → IsTidy r → IsTidy (create a r)
unfolding create
create-IsTidy a r tidy p = elim (Bool-cases (joins p a)) [
  | inl joining ↦
      rw (members-index_child p a r.by_parent, joining)
        (put-Once (members p r.by_parent) a.dedup_key a (tidy p))
  | inr apart ↦ rw (members-index_child p a r.by_parent, apart) (tidy p)
]

pub active_child :
    {r : MemoryAlertRepository} (k : String)
    → IsIndexed r
    → IsTidy r
    → 0 < count_active_children k r
    → (j : String) × (b : Alert) × (get r.by_dedup_key j ≡ some b)
      × (joins k b ≡ true)
      × (is_active b ≡ true)
active_child {r} k v tidy more =
    let (j, b, listed, active) = picked is_active (members k r.by_parent) (tidy k) more in
    elim (Option-cases (get r.by_dedup_key j)) [
      | inl missing ↦ absurd (ground (arith, v.children k j, listed, missing))
      | inr (a, there) ↦ (
        j,
        b,
        ground (arith, v.children k j, listed, there),
        ground (arith, v.children k j, listed, there),
        active,
      )
    ]
