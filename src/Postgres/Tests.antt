-- ===== src/Postgres/Tests.antt =====
-- A filter and an alert of internal/store/postgres.
use Prim.Native.String as Text
use argus_go.Base.{zero, suc, String, [], ◌∷◌, map, Option, some, false, ◌≡◌, refl, arith}
use argus_go.Base.Int.{pos, negsuc}
use argus_go.Config.{decimal}
use argus_go.Domain.{Time, Alert, AlertFilter}
use argus_go.Postgres.{Value, text, number}
use argus_go.Postgres.Alerts.{
  list_query, query_text, select_alert, insert_alert, update_alert, separated, placeholders,
}
use argus_go.Postgres.Filters.{at_place, bind, arguments, wanted, list_query-binds}
use argus_go.Postgres.Tables.{kept_value, update_row, replaced}
use argus_go.Postgres.Rows.{kept, edited, reactivates, row_of, Reads, update_row-Reads}

abbrev active : AlertFilter
active = record {
  event_manager_id = "";
  status = "active";
  type = "";
  limit = pos 25;
  offset = pos 0;
}

query_text-active :
    query_text (list_query active).pieces
    ≡ Text.◌++◌ select_alert "1=1 AND status = $1 ORDER BY created_at DESC LIMIT $2"
unfolding query_text list_query decimal
query_text-active = refl

args-active : (list_query active).args ≡ text "active" ∷ number (pos 25) ∷ []
unfolding list_query
args-active = refl

list_query-binds_example :
    (map (bind (list_query active).args) (list_query active).pieces ≡ wanted active)
    × (arguments (wanted active) ≡ map some (list_query active).args)
list_query-binds_example = list_query-binds active

abbrev stored : Alert
stored = record {
  id = "1";
  dedup_key = "a";
  event_manager_id = "team";
  summary = "disk full";
  severity = "high";
  class = "disk";
  type = "parent";
  status = "resolved";
  parent_dedup_key = "";
  child_count = 2;
  resolve_requested = false;
  created_at = pos 0;
  updated_at = pos 5;
  resolved_at = some (pos 5);
}

-- Few times are kept as they are by the columns of time here.
abbrev even : Time → Time
even (pos zero) = pos 0
even (pos (suc zero)) = pos 0
even (pos (suc (suc n))) = pos 4
even (negsuc n) = negsuc 1

abbrev store : String → Value → Option Value
store c v = some (kept_value even v)

store-keeps : (c : String) (v u : Value) → store c v ≡ some u → u ≡ kept_value even v
store-keeps c v u e = ground (arith, e)

abbrev reopened : Alert
reopened = kept even (edited reactivates (kept even stored) (pos 9))

update_row-Reads_example : Reads (row_of reopened) reopened
unfolding update_row at_place replaced
update_row-Reads_example =
    (update_row-Reads store even store-keeps (kept even stored) reactivates (pos 9)
      (row_of reopened) refl refl).2

insert_text :
    insert_alert
    ≡ "INSERT INTO alerts ( id, dedup_key, event_manager_id, summary, severity, class, type, status, parent_dedup_key, child_count, resolve_requested, created_at, updated_at, resolved_at ) VALUES ($1, $2, $3, $4, $5, $6, $7, $8, $9, $10, $11, $12, $13, $14)"
unfolding insert_alert separated placeholders decimal
insert_text = refl

update_text :
    update_alert
    ≡ "UPDATE alerts SET summary = $2, severity = $3, class = $4, status = $5, child_count = $6, resolve_requested = $7, updated_at = $8, resolved_at = $9 WHERE id = $1"
unfolding update_alert separated decimal
update_text = refl

select_text :
    select_alert
    ≡ "SELECT id, dedup_key, event_manager_id, summary, severity, class, type, status, parent_dedup_key, child_count, resolve_requested, created_at, updated_at, resolved_at FROM alerts WHERE "
unfolding select_alert separated
select_text = refl
