-- ===== src/Postgres.antt =====
-- internal/store/postgres. The pool of pgx, with the server behind it, is a parameter: it takes the
-- text of a statement, here with its white space collapsed, and the values of its placeholders. `Row`
-- is what the destinations of `Scan` hold after a row, and `no_rows` is `pgx.ErrNoRows`.
pub mod Alerts
pub mod EventManagers
pub mod GroupingRules
pub mod Tables
pub mod Rows
pub mod Filters
pub mod Database
mod Tests
use argus_go.Base.{
  ℕ, zero, suc, String, Bool, true, false, Option, none, some, List, [], ◌∷◌, Result, ok, err,
  Error, Eff, ◌>>=◌, pure, raise, attempt, if◌then◌else◌, is, ◌==◌,
}
use argus_go.Base.Effect.{wrapped, no_rows}
use argus_go.Base.Int.{ℤ}
use argus_go.Domain.{Time}

pub data Value : Type 0 where
  text : String → Value
  number : ℤ → Value
  boolean : Bool → Value
  time : Time → Value
  null : Value

-- `Exec` gives the number of affected rows; `query` gives what `Scan` gives for each row and what
-- `Err` gives after the last; `count` is `QueryRow` with `Scan` into an integer.
pub record Pool (Row W : Type 0) : Type 0 where
  pub exec : String → List Value → Eff W ℕ
  pub query_row : String → List Value → Eff W Row
  pub query : String → List Value → Eff W (List (Result Row) × Option Error)
  pub count : String → List Value → Eff W ℕ

abbrev pub is_no_rows : Error → Bool
is_no_rows no_rows = true
is_no_rows _ = false

module _ {W : Type 0} where
  -- `if err != nil { return fmt.Errorf("…: %w", err) }` after an `Exec`.
  abbrev pub executed : String → Result ℕ → Eff W Unit
  executed message (ok n) = pure tt
  executed message (err e) = raise (wrapped message e)

  -- The same, where no affected row is an error too.
  abbrev pub affected : String → Error → Result ℕ → Eff W Unit
  affected message missing (ok zero) = raise missing
  affected message missing (ok (suc n)) = pure tt
  affected message missing (err e) = raise (wrapped message e)

  -- What a lookup makes of a scanned row.
  abbrev pub single : {Row A : Type 0} → (Row → A) → String → Error → Result Row → Eff W A
  single read message missing (ok row) = pure (read row)
  single read message missing (err e) =
      if is is_no_rows e then raise missing else raise (wrapped message e)

abbrev prepend : {A : Type 0} → A → Result (List A) → Result (List A)
prepend a (ok l) = ok (a ∷ l)
prepend a (err e) = err e

-- The loop over `rows.Next()`.
unfoldable pub scan_rows :
    {Row A : Type 0} → (Row → A) → String → List (Result Row) → Result (List A)
scan_rows read message [] = ok []
scan_rows read message (ok row ∷ rows) = prepend (read row) (scan_rows read message rows)
scan_rows read message (err e ∷ rows) = err (wrapped message e)

-- `rows.Err()`, after the loop.
abbrev pub iterated : {A : Type 0} → String → Result (List A) → Option Error → Result (List A)
iterated message (ok l) (some e) = err (wrapped message e)
iterated message (ok l) none = ok l
iterated message (err e) last = err e

abbrev pub listed :
    {Row A W : Type 0}
    → (Row → A)
    → (failed malformed interrupted : String) → Result (List (Result Row) × Option Error)
    → Eff W (List A)
listed read failed malformed interrupted (ok (rows, last)) w =
    (iterated interrupted (scan_rows read malformed rows) last, w)
listed read failed malformed interrupted (err e) w = (err (wrapped failed e), w)

-- `nullableString`
abbrev pub nullable_string : String → Option String
nullable_string s = if s == "" then none else some s

-- `if p != nil { field = *p }` on a field that is the empty string.
abbrev pub string_or_empty : Option String → String
string_or_empty none = ""
string_or_empty (some s) = s

abbrev pub text_or_null : Option String → Value
text_or_null none = null
text_or_null (some s) = text s

abbrev pub time_or_null : Option Time → Value
time_or_null none = null
time_or_null (some t) = time t
