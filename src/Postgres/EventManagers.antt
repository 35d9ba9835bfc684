-- ===== src/Postgres/EventManagers.antt =====
-- internal/store/postgres/event_manager_repository.go
use argus_go.Base.{String, Option, List, [], ◌∷◌, Eff, ◌>>=◌, attempt}
use argus_go.Base.Effect.{event_manager_not_found}
use argus_go.Domain.{Time, EventManager}
use argus_go.Store.{EventManagerRepository}
use argus_go.Postgres.{Value, text, string_or_empty, time, Pool, executed, affected, single, listed}

-- A row of the table `event_managers`; `webhook_url` is scanned into a pointer.
pub record EventManagerRow : Type 0 where
  pub id : String
  pub name : String
  pub description : String
  pub grouping_rule_id : String
  pub webhook_url : Option String
  pub created_at : Time
  pub updated_at : Time

-- `scanEventManager` and `scanEventManagerRow`
abbrev pub scan : EventManagerRow → EventManager
scan r = record {
  id = r.id;
  name = r.name;
  description = r.description;
  grouping_rule_id = r.grouping_rule_id;
  notification_config = record { webhook_url = string_or_empty r.webhook_url };
  created_at = r.created_at;
  updated_at = r.updated_at;
}

abbrev pub insert : String
insert =
    "INSERT INTO event_managers ( id, name, description, grouping_rule_id, webhook_url, created_at, updated_at ) VALUES ($1, $2, $3, $4, $5, $6, $7)"

abbrev pub insert_args : EventManager → List Value
insert_args em =
    text em.id
    ∷ text em.name
    ∷ text em.description
    ∷ text em.grouping_rule_id
    ∷ text em.notification_config.webhook_url
    ∷ time em.created_at
    ∷ time em.updated_at
    ∷ []

abbrev pub update_text : String
update_text =
    "UPDATE event_managers SET name = $2, description = $3, grouping_rule_id = $4, webhook_url = $5, updated_at = $6 WHERE id = $1"

abbrev pub update_args : EventManager → List Value
update_args em =
    text em.id
    ∷ text em.name
    ∷ text em.description
    ∷ text em.grouping_rule_id
    ∷ text em.notification_config.webhook_url
    ∷ time em.updated_at
    ∷ []

module _ {W : Type 0} (pool : Pool EventManagerRow W) where
  unfoldable pub create : EventManager → Eff W Unit
  create em = do
    answer ← attempt (pool.exec insert (insert_args em))
    executed "failed to create event manager" answer

  unfoldable pub update : EventManager → Eff W Unit
  update em = do
    answer ← attempt (pool.exec update_text (update_args em))
    affected "failed to update event manager" event_manager_not_found answer

  unfoldable pub delete : String → Eff W Unit
  delete id = do
    answer ← attempt (pool.exec "DELETE FROM event_managers WHERE id = $1" (text id ∷ []))
    affected "failed to delete event manager" event_manager_not_found answer

  unfoldable pub get_by_id : String → Eff W EventManager
  get_by_id id = do
    answer ← attempt (
        pool.query_row
          "SELECT id, name, description, grouping_rule_id, webhook_url, created_at, updated_at FROM event_managers WHERE id = $1"
          (text id ∷ []))
    single scan "failed to get event manager" event_manager_not_found answer

  unfoldable pub list : Eff W (List EventManager)
  list = do
    answer ← attempt (
        pool.query
          "SELECT id, name, description, grouping_rule_id, webhook_url, created_at, updated_at FROM event_managers ORDER BY created_at DESC"
          [])
    listed scan "failed to list event managers" "failed to scan event manager"
        "error iterating event managers" answer

  abbrev pub postgres_event_manager_repository : EventManagerRepository W
  postgres_event_manager_repository = record {
    create = create;
    update = update;
    delete = delete;
    get_by_id = get_by_id;
    list = list;
  }
