-- ===== src/Postgres/GroupingRules.antt =====
-- internal/store/postgres/grouping_rule_repository.go
use argus_go.Base.{String, List, [], ◌∷◌, Eff, ◌>>=◌, attempt}
use argus_go.Base.Effect.{grouping_rule_not_found}
use argus_go.Base.Int.{ℤ}
use argus_go.Domain.{Time, GroupingRule}
use argus_go.Store.{GroupingRuleRepository}
use argus_go.Postgres.{Value, text, number, time, Pool, executed, affected, single, listed}

-- A row of the table `grouping_rules`.
pub record GroupingRuleRow : Type 0 where
  pub id : String
  pub name : String
  pub grouping_key : String
  pub time_window_minutes : ℤ
  pub created_at : Time
  pub updated_at : Time

-- `scanGroupingRule` and `scanGroupingRuleRow`
abbrev pub scan : GroupingRuleRow → GroupingRule
scan r = record {
  id = r.id;
  name = r.name;
  grouping_key = r.grouping_key;
  time_window_minutes = r.time_window_minutes;
  created_at = r.created_at;
  updated_at = r.updated_at;
}

abbrev pub insert : String
insert =
    "INSERT INTO grouping_rules ( id, name, grouping_key, time_window_minutes, created_at, updated_at ) VALUES ($1, $2, $3, $4, $5, $6)"

abbrev pub insert_args : GroupingRule → List Value
insert_args rule =
    text rule.id
    ∷ text rule.name
    ∷ text rule.grouping_key
    ∷ number rule.time_window_minutes
    ∷ time rule.created_at
    ∷ time rule.updated_at
    ∷ []

abbrev pub update_text : String
update_text =
    "UPDATE grouping_rules SET name = $2, grouping_key = $3, time_window_minutes = $4, updated_at = $5 WHERE id = $1"

abbrev pub update_args : GroupingRule → List Value
update_args rule =
    text rule.id
    ∷ text rule.name
    ∷ text rule.grouping_key
    ∷ number rule.time_window_minutes
    ∷ time rule.updated_at
    ∷ []

module _ {W : Type 0} (pool : Pool GroupingRuleRow W) where
  unfoldable pub create : GroupingRule → Eff W Unit
  create rule = do
    answer ← attempt (pool.exec insert (insert_args rule))
    executed "failed to create grouping rule" answer

  unfoldable pub update : GroupingRule → Eff W Unit
  update rule = do
    answer ← attempt (pool.exec update_text (update_args rule))
    affected "failed to update grouping rule" grouping_rule_not_found answer

  unfoldable pub delete : String → Eff W Unit
  delete id = do
    answer ← attempt (pool.exec "DELETE FROM grouping_rules WHERE id = $1" (text id ∷ []))
    affected "failed to delete grouping rule" grouping_rule_not_found answer

  unfoldable pub get_by_id : String → Eff W GroupingRule
  get_by_id id = do
    answer ← attempt (
        pool.query_row
          "SELECT id, name, grouping_key, time_window_minutes, created_at, updated_at FROM grouping_rules WHERE id = $1"
          (text id ∷ []))
    single scan "failed to get grouping rule" grouping_rule_not_found answer

  unfoldable pub list : Eff W (List GroupingRule)
  list = do
    answer ← attempt (
        pool.query
          "SELECT id, name, grouping_key, time_window_minutes, created_at, updated_at FROM grouping_rules ORDER BY created_at DESC"
          [])
    listed scan "failed to list grouping rules" "failed to scan grouping rule"
        "error iterating grouping rules" answer

  abbrev pub postgres_grouping_rule_repository : GroupingRuleRepository W
  postgres_grouping_rule_repository = record {
    create = create;
    update = update;
    delete = delete;
    get_by_id = get_by_id;
    list = list;
  }
