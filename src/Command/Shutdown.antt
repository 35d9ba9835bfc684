-- ===== src/Command/Shutdown.antt =====
-- The order of the calls with which cmd/argus/main.go ends, and that it ends.
use mathlib.Core.Path.{subst}
use mathlib.Core.List.{reverse, reverse-cons}
use argus_go.Base.{
  ℕ, zero, suc, ◌+◌, ◌≤◌, Bool, true, false, Option, none, some, List, [], ◌∷◌, ◌++◌, map, ◌≡◌, ◌⊎◌,
  inl, inr, refl, ap, arith, if◌then◌else◌, ok, err,
}
use argus_go.Base.Lists.{length, drop, get_elem?}
use argus_go.Command.Lifecycle.{
  Duties, Phase, waiting, shutting_down, stopping, exited, cleaning, Call, shut_down_server,
  stop_processor, close, Runtime, launched, Event, signal, processor_returns, server_returns, works,
  Run, here, happens, acts, advance, main_step,
}

module _ {A : Type 0} where
  pub get-drop :
      (l : List A) (i : ℕ)
      → suc i ≤ length l
      → (x : A) × (get_elem? l i ≡ some x) × (drop i l ≡ x ∷ drop (suc i) l)
  get-drop [] i le = absurd (omega arith)
  get-drop (x ∷ l) zero le = (x, refl, refl)
  get-drop (x ∷ l) (suc i) le = get-drop l i (omega arith)

  pub drop-length : (l : List A) → drop (length l) l ≡ []
  drop-length [] = refl
  drop-length (x ∷ l) = drop-length l

module _ {X W : Type 0} (d : Duties X W) where
  -- The calls that main has made where it is at a phase.
  abbrev pub due : Phase → List (Call X)
  due waiting = []
  due shutting_down = []
  due stopping = shut_down_server ∷ []
  due (cleaning i) =
      shut_down_server ∷ stop_processor ∷ map close (reverse (drop i d.cleanup_funcs))
  due exited = shut_down_server ∷ stop_processor ∷ map close (reverse d.cleanup_funcs)

  -- The steps that main has left.
  abbrev pub left : Phase → ℕ
  left waiting = length d.cleanup_funcs + 4
  left shutting_down = length d.cleanup_funcs + 3
  left stopping = length d.cleanup_funcs + 2
  left (cleaning i) = suc i
  left exited = 0

  abbrev InRange : Phase → Type 0
  InRange (cleaning i) = i ≤ length d.cleanup_funcs
  InRange _ = Unit

  abbrev is_waiting : Phase → Bool
  is_waiting waiting = true
  is_waiting _ = false

  left_bound : (p : Phase) → InRange p → left p ≤ length d.cleanup_funcs + 4
  left_bound waiting le = omega arith
  left_bound shutting_down le = omega arith
  left_bound stopping le = omega arith
  left_bound (cleaning i) le = omega arith
  left_bound exited le = omega arith

  -- Where main is at the phase `p`.
  pub record Orderly (p : Phase) (cancelled : Bool) (calls : List (Call X)) : Type 0 where
    pub made : calls ≡ due p
    pub done : is_waiting p ≡ false → cancelled ≡ true
    pub in_range : InRange p

  abbrev pub Ordered : Runtime X W → Type 0
  Ordered s = Orderly s.phase s.cancelled s.calls

  map-close_last : (l : List X) (x : X) → map close (l ++ x ∷ []) ≡ map close l ++ close x ∷ []
  map-close_last [] x = refl
  map-close_last (y ∷ l) x = ap (λ r. close y ∷ r) (map-close_last l x)

  -- What the next step of main comes to: it is stuck only where it has nothing to do.
  abbrev Goes : Phase → Bool → Option (Runtime X W) → Type 0
  Goes p cancelled none = ((p ≡ waiting) × (cancelled ≡ false)) ⊎ (p ≡ exited)
  Goes p cancelled (some t) =
      Ordered t × (left p ≡ suc (left t.phase)) × (is_waiting t.phase ≡ false)

  clean-Goes :
      (i : ℕ) (s : Runtime X W)
      → Orderly (cleaning (suc i)) s.cancelled s.calls
      → Goes (cleaning (suc i)) s.cancelled (advance d (cleaning (suc i)) s)
  clean-Goes i s h =
      let funcs = d.cleanup_funcs in
      let (x, found, dropped) = get-drop funcs i h.in_range in
      rw found (
        record {
          made =
              rw
                (
                  h.made,
                  dropped,
                  reverse-cons x (drop (suc i) funcs),
                  map-close_last (reverse (drop (suc i) funcs)) x,
                )
                refl;
          done = λ _. h.done refl;
          in_range = omega (arith, h.in_range);
        },
        refl,
        refl,
      )

  waiting-Goes :
      (s : Runtime X W) (cancelled : Bool)
      → s.cancelled ≡ cancelled
      → Orderly waiting s.cancelled s.calls
      → Goes waiting s.cancelled
          (if cancelled then some (record s { phase = shutting_down }) else none)
  waiting-Goes s true e h =
      (record { made = h.made; done = λ _. e; in_range = tt }, omega arith, refl)
  waiting-Goes s false e h = inl (refl, e)

  advance-Goes :
      (p : Phase) (s : Runtime X W)
      → Orderly p s.cancelled s.calls
      → Goes p s.cancelled (advance d p s)
  advance-Goes waiting s h = waiting-Goes s s.cancelled refl h
  advance-Goes shutting_down s h =
      (record { made = rw h.made refl; done = λ _. h.done refl; in_range = tt }, omega arith, refl)
  advance-Goes stopping s h = (
    record {
      made = rw (h.made, drop-length d.cleanup_funcs) refl;
      done = λ _. refl;
      in_range = omega arith;
    },
    omega arith,
    refl,
  )
  advance-Goes (cleaning zero) s h =
      (record { made = h.made; done = λ _. h.done refl; in_range = tt }, refl, refl)
  advance-Goes (cleaning (suc i)) s h = clean-Goes i s h
  advance-Goes exited s h = inr refl

  main_step-Goes : (s : Runtime X W) → Ordered s → Goes s.phase s.cancelled (main_step d s)
  unfolding main_step
  main_step-Goes s h = advance-Goes s.phase s h

  acts-Goes :
      (s t : Runtime X W) → Ordered s → main_step d s ≡ some t → Goes s.phase s.cancelled (some t)
  acts-Goes s t h e = subst (λ o. Goes s.phase s.cancelled o) e (main_step-Goes s h)

  -- A runtime whose context is cancelled, and how far main is from its end.
  record Leaving (n : ℕ) (s t : Runtime X W) : Type 0 where
    ordered : Ordered t
    cancelled : t.cancelled ≡ true
    counted : n + left t.phase ≡ left s.phase

  enabled :
      (p : Phase) (cancelled : Bool) (o : Option (Runtime X W))
      → cancelled ≡ true
      → Goes p cancelled o
      → (p ≡ exited) ⊎ ((u : Runtime X W) × (o ≡ some u))
  enabled p cancelled none c (inl (_, e)) = cc
  enabled p cancelled none c (inr e) = inl e
  enabled p cancelled (some u) c g = inr (u, refl)

  module _ {Works : W → W → Type 0} where
    Event-Ordered : {s t : Runtime X W} → Event Works s t → Ordered s → Ordered t
    Event-Ordered (signal _) h = record { made = h.made; done = λ _. refl; in_range = h.in_range }
    Event-Ordered (processor_returns (ok a) _ _) h = record {
      made = h.made;
      done = h.done;
      in_range = h.in_range;
    }
    Event-Ordered (processor_returns (err e) _ _) h = record {
      made = h.made;
      done = λ w. ground (arith, h.done w);
      in_range = h.in_range;
    }
    Event-Ordered (server_returns (ok a) _ _) h = record {
      made = h.made;
      done = h.done;
      in_range = h.in_range;
    }
    Event-Ordered (server_returns (err e) _ _) h = record {
      made = h.made;
      done = λ _. refl;
      in_range = h.in_range;
    }
    Event-Ordered (works w _ _ _) h = record { made = h.made; done = h.done; in_range = h.in_range }

    -- However signals and the ends of the two goroutines fall between the steps of main: main calls
    -- the server's Shutdown, the processor's Stop, and then every cleanup function once, the last one
    -- first, in this order, and it has made exactly the calls that its phase says; it makes none
    -- before the context is cancelled, and its loop never leaves the range of the list.
    pub Run-Ordered : (w : W) {n : ℕ} {s : Runtime X W} → Run d Works (launched w) n s → Ordered s
    Run-Ordered w here = record { made = refl; done = λ e. cc; in_range = tt }
    Run-Ordered w (happens r e) = Event-Ordered e (Run-Ordered w r)
    Run-Ordered w (acts r e) = (acts-Goes _ _ (Run-Ordered w r) e).0

    Event-phase : {s t : Runtime X W} → Event Works s t → t.phase ≡ s.phase
    Event-phase (signal _) = refl
    Event-phase (processor_returns r _ _) = refl
    Event-phase (server_returns r _ _) = refl
    Event-phase (works w _ _ _) = refl

    Event-cancelled :
        {s t : Runtime X W} → Event Works s t → s.cancelled ≡ true → t.cancelled ≡ true
    Event-cancelled (signal _) c = refl
    Event-cancelled (processor_returns r _ _) c = ground arith
    Event-cancelled (server_returns r _ _) c = ground arith
    Event-cancelled (works w _ _ _) c = c

    Run-Leaving :
        (s : Runtime X W) {n : ℕ} {t : Runtime X W}
        → Ordered s
        → s.cancelled ≡ true
        → Run d Works s n t
        → Leaving n s t
    Run-Leaving s h c here = record { ordered = h; cancelled = c; counted = omega arith }
    Run-Leaving s h c (happens r e) =
        let before = Run-Leaving s h c r in
        record {
          ordered = Event-Ordered e before.ordered;
          cancelled = Event-cancelled e before.cancelled;
          counted = rw (Event-phase e) before.counted;
        }
    Run-Leaving s h c (acts {t} {u} r e) =
        let before = Run-Leaving s h c r in
        let (ordered, one_less, moved) = acts-Goes t u before.ordered e in
        record {
          ordered = ordered;
          cancelled = ordered.done moved;
          counted = omega (arith, before.counted, one_less);
        }

    -- Once the context is cancelled, main ends, if its calls return: however the other goroutines go on,
    -- main takes at most as many steps from there as there are cleanup functions and four more, and at
    -- any moment of such a run it can take the next one unless it has returned.
    pub Run-Ends :
        (w : W) {m n : ℕ} {s t : Runtime X W}
        → Run d Works (launched w) m s
        → s.cancelled ≡ true
        → Run d Works s n t
        → (n ≤ length d.cleanup_funcs + 4)
          × ((t.phase ≡ exited) ⊎ ((u : Runtime X W) × (main_step d t ≡ some u)))
    Run-Ends w {s} {t} start c r =
        let leaving = Run-Leaving s (Run-Ordered w start) c r in
        (
          omega (arith, leaving.counted, left_bound s.phase (Run-Ordered w start).in_range),
          enabled t.phase t.cancelled (main_step d t) leaving.cancelled
              (main_step-Goes t leaving.ordered),
        )
