-- ===== src/Postgres/Tables.antt =====
-- What PostgreSQL does with a row of a table, where its columns take the values of a statement.
use argus_go.Base.{
  String, Option, none, some, List, [], ◌∷◌, map, ◌≡◌, refl, arith, ◌==◌, if◌then◌else◌,
  Option-cases, inl, inr,
}
use argus_go.Domain.{Time}
use argus_go.Postgres.{Value, text, number, boolean, time, null}
use argus_go.Postgres.Alerts.{Assignment}
use argus_go.Postgres.Filters.{at_place}

-- A stored row: its cells by column.
abbrev pub Cells : Type 0
Cells = List (String × Value)

unfoldable pub cell : String → Cells → Option Value
cell k [] = none
cell k ((c, v) ∷ l) = if c == k then some v else cell k l

unfoldable pub replaced : String → Value → Cells → Cells
replaced k u [] = []
replaced k u ((c, v) ∷ l) = (c, (if c == k then u else v)) ∷ replaced k u l

abbrev pub paired : List String → List Value → Cells
paired [] vs = []
paired (c ∷ cs) [] = []
paired (c ∷ cs) (v ∷ vs) = (c, v) ∷ paired cs vs

-- What `SELECT` gives.
abbrev pub selected : List String → Cells → List (Option Value)
selected cs l = map (λ c. cell c l) cs

-- What a column keeps of a value that it takes, where a column of time keeps `keep t` of a time `t`.
abbrev pub kept_value : (Time → Time) → Value → Value
kept_value keep (text s) = text s
kept_value keep (number n) = number n
kept_value keep (boolean b) = boolean b
kept_value keep (time t) = time (keep t)
kept_value keep null = null

module _ (store : String → Value → Option Value) where
  abbrev and_then : {A B : Type 0} → Option A → (A → Option B) → Option B
  and_then none f = none
  and_then (some a) f = f a

  -- `INSERT`: the values go to the columns in order; `store` is what a column keeps of a value, with
  -- `none` where the server refuses it, such as a text that is too long or a number out of range.
  unfoldable pub insert_row : List String → List Value → Option Cells
  insert_row [] vs = some []
  insert_row (c ∷ cs) [] = none
  insert_row (c ∷ cs) (v ∷ vs) =
      and_then (store c v) λ u. and_then (insert_row cs vs) λ l. some ((c, u) ∷ l)

  -- `UPDATE` of a row that its condition selects.
  unfoldable pub update_row : List Assignment → List Value → Cells → Option Cells
  unfolding at_place replaced
  update_row [] args l = some l
  update_row (s ∷ ss) args l =
      and_then (at_place args s.place)
        λ v. and_then (store s.column v) λ u. update_row ss args (replaced s.column u l)

  module _ (keep : Time → Time)
      (keeps : (c : String) (v u : Value) → store c v ≡ some u → u ≡ kept_value keep v) where
    -- The cells of a row, where every column takes its value.
    abbrev pub inserted_cells : List String → List Value → Cells
    inserted_cells [] vs = []
    inserted_cells (c ∷ cs) [] = []
    inserted_cells (c ∷ cs) (v ∷ vs) = (c, kept_value keep v) ∷ inserted_cells cs vs

    abbrev value_or : Option Value → (Value → Cells) → Cells → Cells
    value_or none f l = l
    value_or (some v) f l = f v

    unfoldable pub updated_cells : List Assignment → List Value → Cells → Cells
    unfolding at_place replaced
    updated_cells [] args l = l
    updated_cells (s ∷ ss) args l =
        value_or (at_place args s.place)
          (λ v. updated_cells ss args (replaced s.column (kept_value keep v) l)) l

    pub insert_row-cells :
        (cs : List String) (vs : List Value) (l : Cells)
        → insert_row cs vs ≡ some l
        → l ≡ inserted_cells cs vs
    unfolding insert_row
    insert_row-cells [] vs l e = ground (arith, e)
    insert_row-cells (c ∷ cs) [] l e = absurd (cc e)
    insert_row-cells (c ∷ cs) (v ∷ vs) l e = elim (Option-cases (store c v)) [
      | inl refused ↦ absurd (ground (arith, e, refused))
      | inr (u, takes) ↦ elim (Option-cases (insert_row cs vs)) [
        | inl refused ↦ absurd (ground (arith, e, takes, refused))
        | inr (m, others) ↦
            let rest = insert_row-cells cs vs m others in
            let same : l ≡ ((c, u) ∷ m) = ground (arith, e, takes, others) in
            rw (same, keeps c v u takes, rest) refl
      ]
    ]

    pub update_row-cells :
        (ss : List Assignment) (args : List Value) (l m : Cells)
        → update_row ss args l ≡ some m
        → m ≡ updated_cells ss args l
    unfolding update_row updated_cells
    update_row-cells [] args l m e = ground (arith, e)
    update_row-cells (s ∷ ss) args l m e = elim (Option-cases (at_place args s.place)) [
      | inl missing ↦ absurd (ground (arith, e, missing))
      | inr (v, there) ↦ elim (Option-cases (store s.column v)) [
        | inl refused ↦ absurd (ground (arith, e, there, refused))
        | inr (u, takes) ↦
            let rest =
              update_row-cells ss args (replaced s.column u l) m
                (ground (arith, e, there, takes)) in
            rw there (rw (keeps s.column v u takes) at rest)
      ]
    ]
