-- ===== src/Postgres/Rows.antt =====
-- What the table `alerts` of internal/store/postgres holds of an alert, and what UPDATE changes of it.
use argus_go.Base.{
  String, false, Option, none, some, List, [], ◌∷◌, map, ◌≡◌, ◌∙◌, ap, refl, arith, eq_iff,
}
use argus_go.Base.Int.{pos}
use argus_go.Domain.{
  Time, Alert, resolve, mark_resolve_requested, increment_child_count, alert_status_active,
}
use argus_go.Postgres.{
  Value, text, number, boolean, time, nullable_string, string_or_empty, text_or_null, time_or_null,
}
use argus_go.Postgres.Alerts.{
  AlertRow, scan_alert, alert_columns, update_sets, update_condition, update_args,
}
use argus_go.Postgres.Filters.{at_place}
use argus_go.Postgres.Tables.{
  Cells, cell, replaced, selected, paired, kept_value, update_row, updated_cells, update_row-cells,
}

-- The columns that INSERT sets, each from its placeholder.
abbrev pub inserted : Alert → AlertRow
inserted a = record {
  id = a.id;
  dedup_key = a.dedup_key;
  event_manager_id = a.event_manager_id;
  summary = a.summary;
  severity = a.severity;
  class = a.class;
  type = a.type;
  status = a.status;
  parent_dedup_key = nullable_string a.parent_dedup_key;
  child_count = a.child_count;
  resolve_requested = a.resolve_requested;
  created_at = a.created_at;
  updated_at = a.updated_at;
  resolved_at = a.resolved_at;
}

-- The values of a row, in the order of the columns.
abbrev pub columns : AlertRow → List Value
columns r =
    text r.id
    ∷ text r.dedup_key
    ∷ text r.event_manager_id
    ∷ text r.summary
    ∷ text r.severity
    ∷ text r.class
    ∷ text r.type
    ∷ text r.status
    ∷ text_or_null r.parent_dedup_key
    ∷ number (pos r.child_count)
    ∷ boolean r.resolve_requested
    ∷ time r.created_at
    ∷ time r.updated_at
    ∷ time_or_null r.resolved_at
    ∷ []

string_or_empty-nullable_string : (s : String) → string_or_empty (nullable_string s) ≡ s
string_or_empty-nullable_string s = ground (arith, eq_iff s "")

-- The changes of an alert that internal/processor/service.go makes between GetByDedupKey and Update.
pub data Edit : Type 0 where
  resolves marks_requested counts_child reactivates : Edit

-- What `reactivateAlert` sets.
abbrev pub reactivate : Alert → Time → Alert
reactivate a now = record a {
  status = alert_status_active;
  resolve_requested = false;
  resolved_at = none;
  updated_at = now;
}

abbrev pub edited : Edit → Alert → Time → Alert
edited resolves a now = resolve a now
edited marks_requested a now = mark_resolve_requested a now
edited counts_child a now = increment_child_count a now
edited reactivates a now = reactivate a now

abbrev pub kept_time : (Time → Time) → Option Time → Option Time
kept_time keep none = none
kept_time keep (some t) = some (keep t)

abbrev pub kept : (Time → Time) → Alert → Alert
kept keep a = record a {
  created_at = keep a.created_at;
  updated_at = keep a.updated_at;
  resolved_at = kept_time keep a.resolved_at;
}

-- The row of an alert.
abbrev pub row_of : Alert → Cells
row_of a = paired alert_columns (columns (inserted a))

-- SELECT gives the cells of the row, and they scan as the alert.
abbrev pub Reads : Cells → Alert → Type 0
Reads l a = (r : AlertRow) × (selected alert_columns l ≡ map some (columns r)) × (scan_alert r ≡ a)

row_of-Reads : (a : Alert) → Reads (row_of a) a
unfolding cell
row_of-Reads a = (inserted a, refl, rw (string_or_empty-nullable_string a.parent_dedup_key) refl)

kept_value-time_or_null :
    (keep : Time → Time) (q : Option Time)
    → kept_value keep (time_or_null q) ≡ time_or_null (kept_time keep q)
kept_value-time_or_null keep none = refl
kept_value-time_or_null keep (some t) = refl

edited-id :
    (b : Alert) (e : Edit) (now : Time)
    → at_place (update_args (edited e b now)) update_condition.place
      ≡ cell update_condition.column (row_of b)
unfolding at_place cell
edited-id b resolves now = refl
edited-id b marks_requested now = refl
edited-id b counts_child now = refl
edited-id b reactivates now = refl

module _ (store : String → Value → Option Value) (keep : Time → Time)
    (keeps : (c : String) (v u : Value) → store c v ≡ some u → u ≡ kept_value keep v) where
  updated_cells-row_of :
      (b : Alert) (e : Edit) (now : Time)
      → kept keep b ≡ b
      → updated_cells store keep keeps update_sets (update_args (edited e b now)) (row_of b)
        ≡ row_of (kept keep (edited e b now))
  unfolding updated_cells at_place replaced
  updated_cells-row_of b resolves now same = rw (ap (λ (x : Alert). x.created_at) same) refl
  updated_cells-row_of b marks_requested now same =
      rw (ap (λ (x : Alert). x.created_at) same, kept_value-time_or_null keep b.resolved_at) refl
  updated_cells-row_of b counts_child now same =
      rw (ap (λ (x : Alert). x.created_at) same, kept_value-time_or_null keep b.resolved_at) refl
  updated_cells-row_of b reactivates now same = rw (ap (λ (x : Alert). x.created_at) same) refl

  -- Where the server takes the values of the UPDATE of a stored alert that the processor has changed in
  -- one of its ways, the condition of the statement names the row's ID, and the row reads back as the
  -- changed alert, with its times as a column of time keeps them: the columns that UPDATE sets are enough.
  pub update_row-Reads :
      (b : Alert) (e : Edit) (now : Time) (m : Cells)
      → kept keep b ≡ b
      → update_row store update_sets (update_args (edited e b now)) (row_of b) ≡ some m
      → (at_place (update_args (edited e b now)) update_condition.place
          ≡ cell update_condition.column (row_of b))
        × (m ≡ row_of (kept keep (edited e b now)))
        × Reads m (kept keep (edited e b now))
  update_row-Reads b e now m same takes =
      let now_is : m ≡ row_of (kept keep (edited e b now)) =
        update_row-cells store keep keeps update_sets (update_args (edited e b now)) (row_of b) m
          takes
        ∙ updated_cells-row_of b e now same in
      (edited-id b e now, now_is, rw now_is (row_of-Reads (kept keep (edited e b now))))
