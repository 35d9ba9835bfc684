-- ===== src/Processor/Beside/Rules.antt =====
-- How an action that simulates another is built.
use mathlib.Core.Path.{subst}
use argus_go.Base.{
  ℕ, suc, ◌+◌, List, [], ◌∷◌, ◌++◌, Result, ok, err, Error, Eff, ◌>>=◌, pure, raise, attempt, ◌≡◌,
  refl, arith,
}
use argus_go.Base.Effect.{resume}
use argus_go.Base.Lists.{length}
use argus_go.Domain.{Time}
use argus_go.Store.Contract.{Content}
use argus_go.Processor.World.{World}
use argus_go.Processor.Beside.{Reads, Good, Outcome, Simulates}

length-append : (l m : List Time) → length (l ++ m) ≡ length l + length m
length-append [] m = omega arith
length-append (t ∷ l) m = omega (arith, length-append l m)

-- Readings, one after the other.
Reads-append :
    (clock : ℕ → Time) (k n : ℕ) (l m : List Time)
    → n ≡ k + length l
    → Reads clock k (l ++ m)
    → Reads clock k l × Reads clock n m
Reads-append clock k n [] m e r = (tt, subst (λ i. Reads clock i m) (omega (arith, e)) r)
Reads-append clock k n (t ∷ l) m e (here, r) =
    let (before, after) = Reads-append clock (suc k) n l m (omega (arith, e)) r in
    ((here, before), after)

module _ {W : Type 0} (Holds : W → Content → Type 0) where
  module _ {A : Type 0} {Q : A → Type 0} where
    pub pure-Simulates : (a : A) → Q a → Simulates Holds Q (pure a) (λ clock. pure a)
    pure-Simulates a q = record {
      run = λ x u agree. record {
        readings = [];
        world = u;
        equal = λ clock reads. refl;
        agree = agree;
        ticks = omega arith;
        good = q;
      };
    }

    pub raise-Simulates : (e : Error) → Simulates Holds Q (raise e) (λ clock. raise e)
    raise-Simulates e = record {
      run = λ x u agree. record {
        readings = [];
        world = u;
        equal = λ clock reads. refl;
        agree = agree;
        ticks = omega arith;
        good = tt;
      };
    }

  module _ {A B : Type 0} {Q : A → Type 0} {P : B → Type 0} where
    resume-Outcome :
        (f : A → Eff (W × World) B) (g : (ℕ → Time) → A → Eff World B) (u : World)
        (n : (ℕ → Time) → Result A × World) (r : Result A) (x : W × World)
        → Outcome Holds Q u n r x
        → ((a : A) → Q a → Simulates Holds P (f a) (λ clock. g clock a))
        → Outcome Holds P u
            (λ clock. resume (g clock) (n clock).0 (n clock).1)
            (resume f r x).0
            (resume f r x).1
    resume-Outcome f g u n (err e) x done rest = record {
      readings = done.readings;
      world = done.world;
      equal = λ clock reads. rw (done.equal clock reads) refl;
      agree = done.agree;
      ticks = done.ticks;
      good = tt;
    }
    resume-Outcome f g u n (ok a) x done rest =
        let after = (rest a done.good).run x done.world done.agree in
        record {
          readings = done.readings ++ after.readings;
          world = after.world;
          equal = λ clock reads.
              let (before, later) =
                Reads-append clock u.ticks done.world.ticks done.readings after.readings done.ticks
                  reads in
              rw (done.equal clock before) (after.equal clock later);
          agree = after.agree;
          ticks =
              omega (arith, after.ticks, done.ticks, length-append done.readings after.readings);
          good = after.good;
        }

    pub bind-Simulates :
        (m : Eff (W × World) A) (n : (ℕ → Time) → Eff World A) (f : A → Eff (W × World) B)
        (g : (ℕ → Time) → A → Eff World B)
        → Simulates Holds Q m n
        → ((a : A) → Q a → Simulates Holds P (f a) (λ clock. g clock a))
        → Simulates Holds P (m >>= f) (λ clock. n clock >>= g clock)
    bind-Simulates m n f g s rest = record {
      run = λ x u agree.
          resume-Outcome f g u (λ clock. n clock u) (m x).0 (m x).1 (s.run x u agree) rest;
    }

  module _ {A : Type 0} {Q : A → Type 0} where
    attempt-Outcome :
        (u : World) (n : (ℕ → Time) → Result A × World) (r : Result A) (x : W × World)
        → Outcome Holds Q u n r x
        → Outcome Holds (Good Q) u (λ clock. (ok (n clock).0, (n clock).1)) (ok r) x
    attempt-Outcome u n r x done = record {
      readings = done.readings;
      world = done.world;
      equal = λ clock reads. rw (done.equal clock reads) refl;
      agree = done.agree;
      ticks = done.ticks;
      good = done.good;
    }

    pub attempt-Simulates :
        (m : Eff (W × World) A) (n : (ℕ → Time) → Eff World A)
        → Simulates Holds Q m n
        → Simulates Holds (Good Q) (attempt m) (λ clock. attempt (n clock))
    attempt-Simulates m n s = record {
      run = λ x u agree. attempt-Outcome u (λ clock. n clock u) (m x).0 (m x).1 (s.run x u agree);
    }
