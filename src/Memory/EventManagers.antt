-- ===== src/Memory/EventManagers.antt =====
-- internal/store/memory/event_manager_repository.go. `Create` refuses an ID that is taken.
use argus_go.Base.{String, Option, none, some, List, Result, ok, err}
use argus_go.Base.Effect.{event_manager_not_found, event_manager_already_exists}
use argus_go.Base.Map
use argus_go.Base.Map.{Map}
use argus_go.Domain.{EventManager}

pub record MemoryEventManagerRepository : Type 0 where
  pub event_managers : Map EventManager

-- `NewEventManagerRepository`, and what `Clear` leaves.
abbrev pub new_event_manager_repository : MemoryEventManagerRepository
new_event_manager_repository = record { event_managers = Map.empty }

unfoldable pub create :
    EventManager → MemoryEventManagerRepository → Result (Unit {0}) × MemoryEventManagerRepository
create em r = elim (Map.get r.event_managers em.id) [
  | some _ ↦ (err event_manager_already_exists, r)
  | none ↦ (ok tt, record { event_managers = Map.put r.event_managers em.id em })
]

unfoldable pub update :
    EventManager → MemoryEventManagerRepository → Result (Unit {0}) × MemoryEventManagerRepository
update em r = elim (Map.get r.event_managers em.id) [
  | none ↦ (err event_manager_not_found, r)
  | some _ ↦ (ok tt, record { event_managers = Map.put r.event_managers em.id em })
]

unfoldable pub delete :
    String → MemoryEventManagerRepository → Result (Unit {0}) × MemoryEventManagerRepository
delete id r = elim (Map.get r.event_managers id) [
  | none ↦ (err event_manager_not_found, r)
  | some _ ↦ (ok tt, record { event_managers = Map.delete r.event_managers id })
]

abbrev found : Option EventManager → Result EventManager
found none = err event_manager_not_found
found (some em) = ok em

unfoldable pub get_by_id : String → MemoryEventManagerRepository → Result EventManager
get_by_id id r = found (Map.get r.event_managers id)

-- `order` is the order in which Go ranges over the map.
unfoldable pub list :
    (Map EventManager → List EventManager) → MemoryEventManagerRepository → List EventManager
list order r = order r.event_managers
