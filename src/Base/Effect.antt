-- ===== src/Base/Effect.antt =====
-- Errors, and the methods that mutate the stores and may fail. What was written before a failure
-- stays written, so the state comes back beside the error too.
use Prim.Native.String.{String}
use mathlib.Core.Path.{◌≡◌, refl}
use mathlib.Core.Logic.{◌⊎◌, inl, inr}
use mathlib.Core.Bool.{Bool, true, false}

-- The sentinel errors of the packages. `external` is an error of a driver, a codec or a
-- context, `panic` is a run-time panic, `wrapped` is `fmt.Errorf("…: %w", err)`.
pub data Error : Type 0 where
  alert_not_found : Error
  event_manager_not_found event_manager_already_exists : Error
  grouping_rule_not_found : Error
  empty_event_manager_id empty_summary invalid_severity invalid_action empty_dedup_key : Error
  empty_name empty_grouping_rule_id empty_grouping_key invalid_time_window : Error
  parent_alert_state_not_found : Error
  ingest_event_manager_not_found ingest_grouping_rule_not_found publish_failed : Error
  queue_closed : Error
  redis_nil no_rows : Error
  panic : String → Error
  external : String → Error
  wrapped : String → Error → Error

-- `errors.Is(err, target)` for a sentinel that `hit` recognises.
abbrev pub is : (Error → Bool) → Error → Bool
is hit (wrapped s e) = is hit e
is hit e = hit e

pub data Result {ℓ} (A : Type ℓ) : Type ℓ where
  ok : A → Result A
  err : Error → Result A

pub Result-cases {ℓ} :
    {A : Type ℓ} (r : Result A) → ((a : A) × (r ≡ ok a)) ⊎ ((e : Error) × (r ≡ err e))
Result-cases (ok a) = inl (a, refl)
Result-cases (err e) = inr (e, refl)

abbrev pub Eff {ℓ} : Type ℓ → Type ℓ → Type ℓ
Eff W A = W → Result A × W

module _ {ℓ} {W A B : Type ℓ} where
  -- The rest of a function, after a call that returned `r`.
  abbrev pub resume : (A → Eff W B) → Result A → W → Result B × W
  resume f (ok a) w = f a w
  resume f (err e) w = (err e, w)

  infixl 5 ◌>>=◌ ◌>>◌
  abbrev pub ◌>>=◌ : Eff W A → (A → Eff W B) → Eff W B
  ◌>>=◌ m f w = let (r, w') = m w in resume f r w'

  abbrev pub ◌>>◌ : Eff W A → Eff W B → Eff W B
  m >> n = m >>= λ _. n

module _ {ℓ} {W A : Type ℓ} where
  abbrev pub pure : A → Eff W A
  pure a w = (ok a, w)

  abbrev pub raise : Error → Eff W A
  raise e w = (err e, w)

  -- A call whose error the caller inspects or only logs.
  abbrev pub attempt : Eff W A → Eff W (Result A)
  attempt m w = let (r, w') = m w in (ok r, w')

  -- `if err != nil { return fmt.Errorf("…: %w", err) }`
  abbrev pub or_wrapped : String → Result A → Eff W A
  or_wrapped message (ok a) = pure a
  or_wrapped message (err e) = raise (wrapped message e)

  -- The error branch of a call, where it does more than return the error.
  abbrev pub or_else : Result A → (Error → Eff W A) → Eff W A
  or_else (ok a) f = pure a
  or_else (err e) f = f e

-- `if b { … }` around a statement.
abbrev pub when {ℓ} : {W : Type ℓ} → Bool → Eff W Unit → Eff W Unit
when true m = m
when false m = pure tt
