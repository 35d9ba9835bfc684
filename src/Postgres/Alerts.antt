-- ===== src/Postgres/Alerts.antt =====
-- internal/store/postgres/alert_repository.go; its statements and scans are Postgres.Alerts.Statements.
pub mod Statements
use Prim.Native.String as Text
use argus_go.Base.{
  ℕ, String, List, [], ◌∷◌, ◌++◌, Result, ok, err, Eff, pure, raise, attempt, ◌>>=◌,
}
use argus_go.Base.Effect.{wrapped, alert_not_found}
use argus_go.Domain.{Alert, AlertFilter}
use argus_go.Store.{AlertRepository}
use argus_go.Postgres.{Value, text, Pool, executed, affected, single, listed}
pub use argus_go.Postgres.Alerts.Statements.{
  AlertRow, scan_alert, alert_columns, insert_args, Assignment, assign, update_sets,
  update_condition, update_args, Piece, Query, add, add_if, add_plain, positive, add_last_if, plain,
  placed,
}
unfoldable pub use argus_go.Postgres.Alerts.Statements.{
  separated, placeholders, insert_alert, update_alert, select_alert, query_text, no_condition,
  list_query,
}

module _ {W : Type 0} (pool : Pool AlertRow W) where
  unfoldable pub create : Alert → Eff W Unit
  create a = do
    answer ← attempt (pool.exec insert_alert (insert_args a))
    executed "failed to create alert" answer

  unfoldable pub update : Alert → Eff W Unit
  update a = do
    answer ← attempt (pool.exec update_alert (update_args a))
    affected "failed to update alert" alert_not_found answer

  -- `getOne`
  abbrev pub get_one : String → List Value → Eff W Alert
  get_one condition args = do
    answer ← attempt (pool.query_row (Text.◌++◌ select_alert condition) args)
    single scan_alert "failed to get alert" alert_not_found answer

  unfoldable pub get_by_id : String → Eff W Alert
  get_by_id id = get_one "id = $1" (text id ∷ [])

  unfoldable pub get_by_dedup_key : String → Eff W Alert
  get_by_dedup_key k = get_one "dedup_key = $1" (text k ∷ [])

  unfoldable pub list : AlertFilter → Eff W (List Alert)
  unfolding list_query query_text
  list f = do
    answer ← attempt (pool.query (query_text (list_query f).pieces) (list_query f).args)
    listed scan_alert "failed to list alerts" "failed to scan alert" "error iterating alerts" answer

  unfoldable pub get_children_by_parent : String → Eff W (List Alert)
  get_children_by_parent k = do
    answer ← attempt (
        pool.query (Text.◌++◌ select_alert "parent_dedup_key = $1 ORDER BY created_at DESC")
          (text k ∷ []))
    listed scan_alert "failed to get children" "failed to scan alert" "error iterating alerts"
        answer

  abbrev counted : Result ℕ → Eff W ℕ
  counted (ok n) = pure n
  counted (err e) = raise (wrapped "failed to count active children" e)

  unfoldable pub count_active_children : String → Eff W ℕ
  count_active_children k = do
    answer ← attempt (
        pool.count "SELECT COUNT(*) FROM alerts WHERE parent_dedup_key = $1 AND status = 'active'"
          (text k ∷ []))
    counted answer

  abbrev pub postgres_alert_repository : AlertRepository W
  postgres_alert_repository = record {
    create = create;
    update = update;
    get_by_id = get_by_id;
    get_by_dedup_key = get_by_dedup_key;
    list = list;
    get_children_by_parent = get_children_by_parent;
    count_active_children = count_active_children;
  }
