-- ===== src/Base/Map.antt =====
-- Go's `map[string]V` as an association list: a write replaces the entry of its key where it
-- stands, so a key that is written once has one entry. Go leaves the order of `range` open; the
-- code that ranges over a map takes that order as an argument.
use Prim.Native.Nat.{ℕ, suc, ◌+◌, ◌<◌}
use Prim.Native.String.{String}
use mathlib.Core.Path.{◌≡◌, refl}
use mathlib.Core.Bool.{Bool, true}
use mathlib.Core.Logic.{inl, inr}
use mathlib.Core.Option.{Option, none, some}
use mathlib.Core.List.{List, [], ◌∷◌}
use native.Mathlib.Omega.{arith}
use text.Mathlib.Text.{◌==◌}
use text.Mathlib.TextEquality.{eq_iff}
use text.Mathlib.TextPositions.{eq_refl}
use argus_go.Base.Tests.{if◌then◌else◌, is_some, Bool-cases}

abbrev pub Map {ℓ} : Type ℓ → Type ℓ
Map V = List (String × V)

module _ {ℓ} {V : Type ℓ} where
  abbrev pub empty : Map V
  empty = []

  -- `v, ok := m[k]`
  unfoldable pub get : Map V → String → Option V
  get [] k = none
  get ((j, v) ∷ m) k = if j == k then some v else get m k

  -- `m[k] = v`
  unfoldable pub put : Map V → String → V → Map V
  put [] k v = (k, v) ∷ []
  put ((j, w) ∷ m) k v = if j == k then (j, v) ∷ m else (j, w) ∷ put m k v

  -- `delete(m, k)`
  unfoldable pub delete : Map V → String → Map V
  delete [] k = []
  delete ((j, v) ∷ m) k = let rest = delete m k in if j == k then rest else (j, v) ∷ rest

  -- `len(m)`
  unfoldable pub size : Map V → ℕ
  size [] = 0
  size (e ∷ m) = suc (size m)

  -- The values, in the order in which the map lists them.
  unfoldable pub values : Map V → List V
  values [] = []
  values ((j, v) ∷ m) = v ∷ values m

  pub get-put :
      (m : Map V) (k j : String) (v : V) → get (put m k v) j ≡ (if k == j then some v else get m j)
  unfolding get put
  get-put [] k j v = refl
  get-put ((i, w) ∷ m) k j v = ground (arith, eq_iff i k, eq_iff i j, eq_iff k j, get-put m k j v)

  pub get-delete :
      (m : Map V) (k j : String) → get (delete m k) j ≡ (if k == j then none else get m j)
  unfolding get delete
  get-delete [] k j = ground arith
  get-delete ((i, w) ∷ m) k j = ground (arith, eq_iff i k, eq_iff i j, eq_iff k j, get-delete m k j)

  pub size-put :
      (m : Map V) (k : String) (v : V)
      → size (put m k v) ≡ (if is_some (get m k) then size m else suc (size m))
  unfolding get put size
  size-put [] k v = refl
  size-put ((i, w) ∷ m) k v = ground (arith, size-put m k v)

  pub size_of_empty : (m : Map V) → ((k : String) → get m k ≡ none) → size m ≡ 0
  unfolding get size
  size_of_empty [] h = refl
  size_of_empty ((i, w) ∷ m) h = absurd (ground (arith, h i, eq_refl i))

  -- How many entries of a map a test picks.
  abbrev pub one : (V → Bool) → V → ℕ
  one p v = if p v then 1 else 0

  abbrev pub old : (V → Bool) → Option V → ℕ
  old p none = 0
  old p (some v) = one p v

  unfoldable pub count : (V → Bool) → List V → ℕ
  count p [] = 0
  count p (v ∷ vs) = if p v then suc (count p vs) else count p vs

  pub count-put :
      (p : V → Bool) (m : Map V) (k : String) (v : V)
      → count p (values (put m k v)) + old p (get m k) ≡ count p (values m) + one p v
  unfolding get put count values
  count-put p [] k v = ground arith
  count-put p ((i, w) ∷ m) k v = ground (arith, count-put p m k v)

-- No key stands twice.
module _ {ℓ} {V : Type ℓ} where
  abbrev pub Once : Map V → Type ℓ
  Once [] = Unit
  Once ((k, v) ∷ m) = (get m k ≡ none) × Once m

  pub put-Once : (m : Map V) (k : String) (v : V) → Once m → Once (put m k v)
  unfolding get put
  put-Once [] k v once = (refl, tt)
  put-Once ((j, w) ∷ m) k v (fresh, once) = elim (Bool-cases (j == k)) [
    | inl same ↦ rw same (fresh, once)
    | inr other ↦
        rw other
          (ground (arith, get-put m k j v, eq_iff j k, eq_iff k j, fresh), put-Once m k v once)
  ]

  -- Where a test picks an entry, a lookup finds one that it picks.
  pub picked :
      (p : V → Bool) (m : Map V)
      → Once m
      → 0 < count p (values m)
      → (k : String) × (v : V) × (get m k ≡ some v) × (p v ≡ true)
  unfolding get count values
  picked p [] once some_picked = absurd (omega (arith, some_picked))
  picked p ((j, v) ∷ m) (fresh, once) some_picked = elim (Bool-cases (p v)) [
    | inl holds ↦ (j, v, ground (arith, eq_refl j), holds)
    | inr other ↦
        let (k, u, there, holds) = picked p m once (ground (arith, other, some_picked)) in
        (k, u, ground (arith, eq_iff j k, fresh, there), holds)
  ]

pub get-empty {ℓ} : {V : Type ℓ} (k : String) → get (empty {V = V}) k ≡ none
unfolding get
get-empty k = refl

-- `m[p]` where `m` is a map of maps: a missing inner map reads as the empty one.
abbrev pub or_empty {ℓ} : {V : Type ℓ} → Option (Map V) → Map V
or_empty none = []
or_empty (some m) = m

pub ruleset map_laws = (get-empty, get-put, get-delete)
