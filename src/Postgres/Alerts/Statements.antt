-- ===== src/Postgres/Alerts/Statements.antt =====
-- The statements of internal/store/postgres/alert_repository.go, their arguments, and its scans.
use Prim.Native.String as Text
use argus_go.Base.{ℕ, suc, String, Bool, not, Option, List, [], ◌∷◌, ◌++◌, map, if◌then◌else◌, ◌==◌}
use argus_go.Base.Int.{ℤ, pos, lt_ℤ}
use argus_go.Config.{decimal}
use argus_go.Domain.{Time, Alert, AlertFilter}
use argus_go.Postgres.{
  Value, text, number, boolean, time, nullable_string, string_or_empty, text_or_null, time_or_null,
}

-- A row of the table `alerts`, with its columns that may be null.
pub record AlertRow : Type 0 where
  pub id : String
  pub dedup_key : String
  pub event_manager_id : String
  pub summary : String
  pub severity : String
  pub class : String
  pub type : String
  pub status : String
  pub parent_dedup_key : Option String
  pub child_count : ℕ
  pub resolve_requested : Bool
  pub created_at : Time
  pub updated_at : Time
  pub resolved_at : Option Time

-- `scanAlert`, and the body of the loop of `scanAlerts`.
abbrev pub scan_alert : AlertRow → Alert
scan_alert r = record {
  id = r.id;
  dedup_key = r.dedup_key;
  event_manager_id = r.event_manager_id;
  summary = r.summary;
  severity = r.severity;
  class = r.class;
  type = r.type;
  status = r.status;
  parent_dedup_key = string_or_empty r.parent_dedup_key;
  child_count = r.child_count;
  resolve_requested = r.resolve_requested;
  created_at = r.created_at;
  updated_at = r.updated_at;
  resolved_at = r.resolved_at;
}

-- The columns that INSERT and SELECT name, in this order.
abbrev pub alert_columns : List String
alert_columns =
    "id" ∷ "dedup_key" ∷ "event_manager_id" ∷ "summary" ∷ "severity" ∷ "class" ∷ "type" ∷ "status"
    ∷ "parent_dedup_key" ∷ "child_count" ∷ "resolve_requested" ∷ "created_at" ∷ "updated_at"
    ∷ "resolved_at" ∷ []

unfoldable pub separated : List String → String
separated [] = ""
separated (s ∷ []) = s
separated (s ∷ t ∷ l) = Text.◌++◌ s (Text.◌++◌ ", " (separated (t ∷ l)))

abbrev placeholder : ℕ → String
placeholder n = Text.◌++◌ "$" (decimal (pos n))

-- The placeholders for the columns, the first with the given number.
unfoldable pub placeholders : ℕ → List String → List String
placeholders n [] = []
placeholders n (c ∷ cs) = placeholder n ∷ placeholders (suc n) cs

unfoldable pub insert_alert : String
unfolding separated placeholders
insert_alert = Text.◌++◌ "INSERT INTO alerts ( " (
    Text.◌++◌ (separated alert_columns)
      (Text.◌++◌ " ) VALUES (" (Text.◌++◌ (separated (placeholders 1 alert_columns)) ")")))

abbrev pub insert_args : Alert → List Value
insert_args a =
    text a.id
    ∷ text a.dedup_key
    ∷ text a.event_manager_id
    ∷ text a.summary
    ∷ text a.severity
    ∷ text a.class
    ∷ text a.type
    ∷ text a.status
    ∷ text_or_null (nullable_string a.parent_dedup_key)
    ∷ number (pos a.child_count)
    ∷ boolean a.resolve_requested
    ∷ time a.created_at
    ∷ time a.updated_at
    ∷ time_or_null a.resolved_at
    ∷ []

-- `column = $place`
pub record Assignment : Type 0 where
  pub column : String
  pub place : ℕ

abbrev pub assign : String → ℕ → Assignment
assign column place = record { column = column; place = place }

-- What UPDATE sets, and its condition.
abbrev pub update_sets : List Assignment
update_sets =
    assign "summary" 2
    ∷ assign "severity" 3
    ∷ assign "class" 4
    ∷ assign "status" 5
    ∷ assign "child_count" 6
    ∷ assign "resolve_requested" 7
    ∷ assign "updated_at" 8
    ∷ assign "resolved_at" 9
    ∷ []

abbrev pub update_condition : Assignment
update_condition = assign "id" 1

abbrev assignment_text : Assignment → String
assignment_text s = Text.◌++◌ s.column (Text.◌++◌ " = " (placeholder s.place))

unfoldable pub update_alert : String
unfolding separated
update_alert = Text.◌++◌ "UPDATE alerts SET " (
    Text.◌++◌ (separated (map assignment_text update_sets))
      (Text.◌++◌ " WHERE " (assignment_text update_condition)))

abbrev pub update_args : Alert → List Value
update_args a =
    text a.id
    ∷ text a.summary
    ∷ text a.severity
    ∷ text a.class
    ∷ text a.status
    ∷ number (pos a.child_count)
    ∷ boolean a.resolve_requested
    ∷ time a.updated_at
    ∷ time_or_null a.resolved_at
    ∷ []

unfoldable pub select_alert : String
unfolding separated
select_alert = Text.◌++◌ "SELECT " (Text.◌++◌ (separated alert_columns) " FROM alerts WHERE ")

-- A part of the text that `List` builds: as it stands, or with `$%d` at its end.
pub data Piece : Type 0 where
  plain : String → Piece
  placed : String → ℕ → Piece

abbrev piece_text : Piece → String
piece_text (plain s) = s
piece_text (placed s n) = Text.◌++◌ s (Text.◌++◌ "$" (decimal (pos n)))

unfoldable pub query_text : List Piece → String
query_text [] = ""
query_text (p ∷ ps) = Text.◌++◌ (piece_text p) (query_text ps)

-- `query`, `args` and `argNum` of `List`.
pub record Query : Type 0 where
  pub pieces : List Piece
  pub args : List Value
  pub arg_num : ℕ

-- A part with a placeholder, its argument, and `argNum++`; where the filter asks for it.
abbrev pub add : String → Value → Query → Query
add s v q = record {
  pieces = q.pieces ++ placed s q.arg_num ∷ [];
  args = q.args ++ v ∷ [];
  arg_num = suc q.arg_num;
}

abbrev pub add_if : Bool → String → Value → Query → Query
add_if b s v q = if b then add s v q else q

abbrev pub add_plain : String → Query → Query
add_plain s q = record q { pieces = q.pieces ++ plain s ∷ [] }

abbrev pub positive : ℤ → Bool
positive n = lt_ℤ (pos 0) n

unfoldable pub no_condition : Query
unfolding select_alert
no_condition = record { pieces = plain (Text.◌++◌ select_alert "1=1") ∷ []; args = []; arg_num = 1 }

-- The same for the offset, which comes last and leaves `argNum` as it is.
abbrev pub add_last_if : Bool → String → Value → Query → Query
add_last_if b s v q = if b then record (add s v q) { arg_num = q.arg_num } else q

-- The query of `List`.
unfoldable pub list_query : AlertFilter → Query
unfolding no_condition
list_query f = add_last_if (positive f.offset) " OFFSET " (number f.offset) (
    add_if (positive f.limit) " LIMIT " (number f.limit) (
      add_plain " ORDER BY created_at DESC" (
        add_if (not (f.type == "")) " AND type = " (text f.type) (
          add_if (not (f.status == "")) " AND status = " (text f.status) (
            add_if (not (f.event_manager_id == "")) " AND event_manager_id = "
              (text f.event_manager_id) no_condition)))))
