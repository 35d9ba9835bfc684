-- ===== src/Command/Lifecycle.antt =====
-- cmd/argus/main.go from the start of the goroutines on, as steps of the processor's goroutine, the
-- server's, the signals and main. Between two steps of main the others come in any order.
use argus_go.Base.{
  ℕ, zero, suc, Bool, true, false, not, ◌&&◌, ◌||◌, Option, none, some, List, [], ◌∷◌, ◌++◌, Result,
  ok, err, Eff, ◌≡◌, if◌then◌else◌,
}
use argus_go.Base.Lists.{length, get_elem?}

-- What main still calls after the goroutines have started: the server's `Shutdown`, the processor's
-- `Stop`, and the cleanup functions `X`.
pub record Duties (X W : Type 0) : Type 0 where
  pub shutdown : Eff W Unit
  pub stop : Eff W Unit
  pub close : X → W → W
  pub cleanup_funcs : List X

-- Where main is: `cleaning i` is the loop of `cleanup` with the first i functions left.
pub data Phase : Type 0 where
  waiting shutting_down stopping exited : Phase
  cleaning : ℕ → Phase

pub data Call (X : Type 0) : Type 0 where
  shut_down_server stop_processor : Call X
  close : X → Call X

-- `cancelled` is whether the context is done; `calls` are the calls that main has made.
pub record Runtime (X W : Type 0) : Type 0 where
  pub cancelled : Bool
  pub processor_runs : Bool
  pub server_runs : Bool
  pub phase : Phase
  pub calls : List (Call X)
  pub world : W

abbrev pub is_exited : Phase → Bool
is_exited exited = true
is_exited _ = false

abbrev is_err : Result (Unit {0}) → Bool
is_err (ok a) = false
is_err (err e) = true

module _ {X W : Type 0} where
  abbrev pub launched : W → Runtime X W
  launched w = record {
    cancelled = false;
    processor_runs = true;
    server_runs = true;
    phase = waiting;
    calls = [];
    world = w;
  }

  -- The processor's goroutine, when `Start` has returned.
  abbrev pub after_processor : Result (Unit {0}) → Runtime X W → Runtime X W
  after_processor r s = record s {
    processor_runs = false;
    cancelled = if is_err r && not s.cancelled then true else s.cancelled;
  }

  -- The server's goroutine, when `Start` has returned.
  abbrev pub after_server : Result (Unit {0}) → Runtime X W → Runtime X W
  after_server r s = record s {
    server_runs = false;
    cancelled = if is_err r then true else s.cancelled;
  }

  -- What can happen around main, until it returns. `Works` is what the goroutines do to the world.
  pub data Event (Works : W → W → Type 0) : Runtime X W → Runtime X W → Type 0 where
    signal :
        {s : Runtime X W}
        → is_exited s.phase ≡ false
        → Event Works s (record s { cancelled = true })
    processor_returns :
        {s : Runtime X W} (r : Result (Unit {0}))
        → is_exited s.phase ≡ false
        → s.processor_runs ≡ true
        → Event Works s (after_processor r s)
    server_returns :
        {s : Runtime X W} (r : Result (Unit {0}))
        → is_exited s.phase ≡ false
        → s.server_runs ≡ true
        → Event Works s (after_server r s)
    works :
        {s : Runtime X W} (w : W)
        → is_exited s.phase ≡ false
        → (s.processor_runs || s.server_runs) ≡ true
        → Works s.world w
        → Event Works s (record s { world = w })

  module _ (d : Duties X W) where
    -- One round of the loop of `cleanup`; a function out of range would be a panic.
    abbrev pub clean : Option X → ℕ → Runtime X W → Option (Runtime X W)
    clean none i s = none
    clean (some x) i s = some (record s {
      world = d.close x s.world;
      phase = cleaning i;
      calls = s.calls ++ close x ∷ [];
    })

    abbrev pub advance : Phase → Runtime X W → Option (Runtime X W)
    advance waiting s = if s.cancelled then some (record s { phase = shutting_down }) else none
    advance shutting_down s = some (record s {
      world = (d.shutdown s.world).1;
      phase = stopping;
      calls = s.calls ++ shut_down_server ∷ [];
    })
    advance stopping s = some (record s {
      world = (d.stop s.world).1;
      phase = cleaning (length d.cleanup_funcs);
      calls = s.calls ++ stop_processor ∷ [];
      cancelled = true;
    })
    advance (cleaning zero) s = some (record s { phase = exited })
    advance (cleaning (suc i)) s = clean (get_elem? d.cleanup_funcs i) i s
    advance exited s = none

    -- The next step of main, where it has one. The errors of `Shutdown` and `Stop` are only logged, and
    -- the deferred `cancel` runs before the deferred `cleanup`.
    unfoldable pub main_step : Runtime X W → Option (Runtime X W)
    main_step s = advance s.phase s

    -- A run, with the number of main's steps in it.
    pub data Run (Works : W → W → Type 0) (s : Runtime X W) : ℕ → Runtime X W → Type 0 where
      here : Run Works s 0 s
      happens : {n : ℕ} {t u : Runtime X W} → Run Works s n t → Event Works t u → Run Works s n u
      acts :
          {n : ℕ} {t u : Runtime X W}
          → Run Works s n t
          → main_step t ≡ some u
          → Run Works s (suc n) u
