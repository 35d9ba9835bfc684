-- ===== src/Api/Queries/Bounds.antt =====
-- What a query of GET /v1/alerts can ask for.
use argus_go.Base.{ℕ, zero, suc, ◌<◌, Option, none, some, List, [], ◌∷◌, ◌≡◌, refl, arith}
use argus_go.Base.Int.{ℤ, pos, negsuc}
use argus_go.Api.Queries.{
  AlertQuery, codes, atoi, unsigned, positive, negative, parsed_limit, parsed_offset, or_default,
  filter_of,
}

-- An int of Go.
abbrev pub Int64 : ℤ → Type 0
Int64 (pos n) = n < 9_223_372_036_854_775_808
Int64 (negsuc n) = n < 9_223_372_036_854_775_808

positive-Int64 : (q : Option ℕ) (i : ℤ) → positive q ≡ some i → Int64 i
positive-Int64 none i e = absurd (cc e)
positive-Int64 (some n) (pos m) e = ground arith
positive-Int64 (some n) (negsuc m) e = absurd (ground arith)

negative-Int64 : (q : Option ℕ) (i : ℤ) → negative q ≡ some i → Int64 i
negative-Int64 none i e = absurd (cc e)
negative-Int64 (some zero) (pos m) e = ground arith
negative-Int64 (some zero) (negsuc m) e = absurd (cc e)
negative-Int64 (some (suc n)) (pos m) e = absurd (ground arith)
negative-Int64 (some (suc n)) (negsuc m) e = ground arith

atoi-Int64 : (l : List ℕ) (i : ℤ) → atoi l ≡ some i → Int64 i
unfolding atoi
atoi-Int64 [] i e = absurd (cc e)
atoi-Int64 (c ∷ l) i e = ground (
  arith,
  positive-Int64 (unsigned (c ∷ l)) i,
  positive-Int64 (unsigned l) i,
  negative-Int64 (unsigned l) i,
)

limit_bounds :
    (r : Option ℤ)
    → ((i : ℤ) → r ≡ some i → Int64 i)
    → (l : ℕ) × (or_default (parsed_limit r) ≡ pos (suc l)) × (suc l < 9_223_372_036_854_775_808)
limit_bounds none fits = (99, refl, omega arith)
limit_bounds (some (pos zero)) fits = (99, refl, omega arith)
limit_bounds (some (pos (suc n))) fits = (n, ground arith, fits (pos (suc n)) refl)
limit_bounds (some (negsuc n)) fits = (99, ground arith, omega arith)

offset_bounds :
    (r : Option ℤ)
    → ((i : ℤ) → r ≡ some i → Int64 i)
    → (i : ℕ) × (parsed_offset r ≡ pos i) × (i < 9_223_372_036_854_775_808)
offset_bounds none fits = (0, refl, omega arith)
offset_bounds (some (pos n)) fits = (n, ground arith, fits (pos n) refl)
offset_bounds (some (negsuc n)) fits = (0, ground arith, omega arith)

-- Whatever the texts of the query are, the limit that reaches the repository is at least 1, the
-- offset at least 0, and both are below 2 ^ 63: no query asks for a slice that starts before 0.
pub filter_of_bounds :
    (q : AlertQuery)
    → ((l : ℕ) × ((filter_of q).limit ≡ pos (suc l)) × (suc l < 9_223_372_036_854_775_808))
      × ((i : ℕ) × ((filter_of q).offset ≡ pos i) × (i < 9_223_372_036_854_775_808))
unfolding filter_of
filter_of_bounds q = (
  limit_bounds (atoi (codes q.limit)) (atoi-Int64 (codes q.limit)),
  offset_bounds (atoi (codes q.offset)) (atoi-Int64 (codes q.offset)),
)
