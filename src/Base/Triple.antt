-- ===== src/Base/Triple.antt =====
-- Conditions before and after a fallible action, with a rule for each way to build an action.
use Prim.Native.String.{String}
use argus_go.Base.Effect.{Result, ok, err, Eff, ◌>>=◌, pure, attempt, or_wrapped, resume}

-- `K` holds where an action gave a value, nothing is said where it failed.
abbrev pub OnOk : {W A : Type 0} → (A → W → Type 0) → Result A → W → Type 0
OnOk K (ok a) w = K a w
OnOk K (err e) w = Unit

-- From a world where `H` holds, `m` ends in one that `K` holds of, if it gives a value.
pub record Triple {W A : Type 0} (H : W → Type 0) (m : Eff W A) (K : A → W → Type 0) : Type 0 where
  pub run : (w : W) → H w → OnOk K (m w).0 (m w).1

-- What holds whatever the value is.
pub kept-OnOk : {W A : Type 0} (H : W → Type 0) (r : Result A) (w : W) → H w → OnOk (λ a. H) r w
kept-OnOk H (ok a) w h = h
kept-OnOk H (err e) w h = tt

resume-OnOk :
    {W A B : Type 0} (J : A → W → Type 0) (L : B → W → Type 0) (f : A → Eff W B) (r : Result A)
    (w : W)
    → OnOk J r w
    → ((a : A) → Triple (J a) (f a) L)
    → OnOk L (resume f r w).0 (resume f r w).1
resume-OnOk J L f (ok a) w h rest = (rest a).run w h
resume-OnOk J L f (err e) w h rest = tt

or_wrapped-OnOk :
    {W A : Type 0} (K : A → W → Type 0) (message : String) (r : Result A) (w : W)
    → OnOk K r w
    → OnOk K (or_wrapped message r w).0 (or_wrapped message r w).1
or_wrapped-OnOk K message (ok a) w k = k
or_wrapped-OnOk K message (err e) w k = tt

module _ {W A : Type 0} {H : W → Type 0} {J : A → W → Type 0} where
  pub bind-Triple :
      {B : Type 0} {L : B → W → Type 0} (m : Eff W A) (f : A → Eff W B)
      → Triple H m J
      → ((a : A) → Triple (J a) (f a) L)
      → Triple H (m >>= f) L
  bind-Triple {L} m f first rest = record {
    run = λ w h. resume-OnOk J L f (m w).0 (m w).1 (first.run w h) rest;
  }

  -- A call whose answer is wrapped where it is an error.
  pub or_wrapped-Triple :
      (m : Eff W A) (message : String)
      → Triple H m J
      → Triple H (attempt m >>= or_wrapped message) J
  or_wrapped-Triple m message t = record {
    run = λ w h. or_wrapped-OnOk J message (m w).0 (m w).1 (t.run w h);
  }

pub pure-Triple : {W A : Type 0} {K : A → W → Type 0} (a : A) → Triple (K a) (pure a) K
pure-Triple a = record { run = λ w h. h }
