-- ===== src/Processor/Beside/States.antt =====
-- The calls of the state store that the processor makes, over any store that keeps the contract of
-- internal/store/state_store.go as over the in-memory store.
use mathlib.Core.Path.{subst}
use mathlib.Core.Option.{some-injective}
use argus_go.Base.{
  ℕ, suc, String, true, false, Option, none, some, [], ◌∷◌, ◌≡◌, ◌⊎◌, inl, inr, refl, sym, ◌∙◌,
  arith,
}
use argus_go.Base.Int.{pos, negsuc, lt_ℤ}
use argus_go.Domain.{Time, Duration}
use argus_go.Store.{StateStore, ParentState, AlertState, PendingResolve}
use argus_go.Store.Contract.{Content, InRange, Implements, grouping, update, update_child}
use argus_go.Base.Map.{get}
use argus_go.Memory.States
use argus_go.Memory.States.{ParentEntry, unexpired, parent_key}
use argus_go.Processor.{Service}
use argus_go.Processor.Contract.{IsRange, stored, Represents, memory_state_store-Implements}
use argus_go.Processor.World.{World, Outside, memory_state_store, service}
use argus_go.Processor.Beside.{service_beside, with_clock, Dated, Simulates}
use argus_go.Processor.Beside.Calls.{
  Any, any-Good, on_states-Simulates, gives-Simulates, moved-SameRest,
}

-- The times of pending resolves, after one has changed.
updated-Dated :
    (c : Content) (k : String) (p : Option PendingResolve)
    → ((q : PendingResolve) → p ≡ some q → InRange q.requested_at)
    → Dated c
    → Dated (record c { pending = update c.pending k p })
updated-Dated c k p in_range dated j q e = ground (arith, dated j q, in_range q)

abbrev pub Recent : Option PendingResolve → Type 0
Recent none = Unit
Recent (some p) = InRange p.requested_at

Dated-Recent : (c : Content) (k : String) → Dated c → Recent (c.pending k)
Dated-Recent c k dated = found (c.pending k) refl
  where
    found : (p : Option PendingResolve) → c.pending k ≡ p → Recent p
    found none e = tt
    found (some p) e = dated k p e

-- The next instant.
abbrev next_time : Time → Time
next_time (pos n) = pos (suc n)
next_time (negsuc n) = pos 0

closed_after : (t : Time) → lt_ℤ t (next_time t) ≡ true
closed_after (pos n) = ground arith
closed_after (negsuc n) = ground arith

open_until : (t : Time) → lt_ℤ t t ≡ false
open_until t = ground arith

-- At some reading of the clock, an entry is there, and at some it is not.
reading :
    (found : Option ParentEntry) (q : Option ParentState)
    → (q ≡ none) ⊎ (q ≡ stored found)
    → (t : Time) × (unexpired t found ≡ q)
reading none q (inl e) = (pos 0, sym e)
reading none q (inr e) = (pos 0, sym e)
reading (some p) q (inl e) = (next_time p.expires_at, rw (closed_after p.expires_at) (sym e))
reading (some p) q (inr e) = (p.expires_at, rw (open_until p.expires_at) (sym e))

answers :
    (found : Option ParentEntry) (q : Option ParentState) (c : Content) (g : String)
    → stored found ≡ c.windows g
    → (q ≡ none) ⊎ (q ≡ c.windows g)
    → (q ≡ none) ⊎ (q ≡ stored found)
answers found q c g same (inl e) = inl e
answers found q c g same (inr e) = inr (e ∙ sym same)

module _ {W : Type 0} (s : StateStore W) (Holds : W → Content → Type 0) (o : Outside)
    (impl : Implements s Holds) (range : IsRange o.order_set) where
  abbrev S : Service (W × World)
  S = service_beside s o

  abbrev T : (ℕ → Time) → Service World
  T clock = service (with_clock o clock)

  -- The in-memory store keeps the contract too.
  memory : Implements (memory_state_store o) (λ w c. Represents w.states c)
  memory = memory_state_store-Implements o range

  pub get_alert-Simulates :
      (k : String)
      → Simulates Holds Any (S.state_store.get_alert k) (λ clock. (T clock).state_store.get_alert k)
  get_alert-Simulates k =
      gives-Simulates s Holds o Any (s.get_alert k) (States.get_alert k) (λ c. c.alerts k)
        (λ w c. impl.get_alert w c k) (λ u c h. h.alerts k) (λ c dated. tt)

  pub get_pending_resolve-Simulates :
      (k : String)
      → Simulates Holds Recent
          (S.state_store.get_pending_resolve k)
          (λ clock. (T clock).state_store.get_pending_resolve k)
  get_pending_resolve-Simulates k =
      gives-Simulates s Holds o Recent (s.get_pending_resolve k) (States.get_pending_resolve k)
        (λ c. c.pending k) (λ w c. impl.get_pending_resolve w c k) (λ u c h. h.pending k)
        (λ c dated. Dated-Recent c k dated)

  pub set_alert-Simulates :
      (a : AlertState)
      → Simulates Holds Any (S.state_store.set_alert a) (λ clock. (T clock).state_store.set_alert a)
  set_alert-Simulates a =
      on_states-Simulates s Holds o (s.set_alert a) (States.set_alert a)
        (λ c. record c { alerts = update c.alerts a.dedup_key (some a) })
        (λ w c. impl.set_alert w c a) (λ u c h. (memory.set_alert u c a h).1) (λ c dated. dated)

  pub add_child-Simulates :
      (p k : String)
      → Simulates Holds Any
          (S.state_store.add_child p k)
          (λ clock. (T clock).state_store.add_child p k)
  add_child-Simulates p k =
      on_states-Simulates s Holds o (s.add_child p k) (States.add_child p k)
        (λ c. record c { children = update_child c.children p k true })
        (λ w c. impl.add_child w c p k) (λ u c h. (memory.add_child u c p k h).1) (λ c dated. dated)

  pub set_pending_resolve-Simulates :
      (k : String) (p : PendingResolve)
      → InRange p.requested_at
      → Simulates Holds Any
          (S.state_store.set_pending_resolve k p)
          (λ clock. (T clock).state_store.set_pending_resolve k p)
  set_pending_resolve-Simulates k p in_range =
      on_states-Simulates s Holds o (s.set_pending_resolve k p) (States.set_pending_resolve k p)
        (λ c. record c { pending = update c.pending k (some p) })
        (λ w c. impl.set_pending_resolve w c k p in_range)
        (λ u c h. (memory.set_pending_resolve u c k p in_range h).1)
        (λ c.
          updated-Dated c k (some p)
            (λ q e. subst (λ r. InRange r.requested_at) (some-injective _ _ e) in_range))

  pub delete_pending_resolve-Simulates :
      (k : String)
      → Simulates Holds Any
          (S.state_store.delete_pending_resolve k)
          (λ clock. (T clock).state_store.delete_pending_resolve k)
  delete_pending_resolve-Simulates k =
      on_states-Simulates s Holds o (s.delete_pending_resolve k) (States.delete_pending_resolve k)
        (λ c. record c { pending = update c.pending k none })
        (λ w c. impl.delete_pending_resolve w c k)
        (λ u c h. (memory.delete_pending_resolve u c k h).1)
        (λ c. updated-Dated c k none (λ q e. cc))

  -- Over the in-memory store, SetParent reads the clock for the end of the window.
  pub set_parent-Simulates :
      (em key value : String) (p : ParentState) (ttl : Duration)
      → InRange p.created_at
      → Simulates Holds Any
          (S.state_store.set_parent em key value p ttl)
          (λ clock. (T clock).state_store.set_parent em key value p ttl)
  set_parent-Simulates em key value p ttl in_range = record {
    run = λ x u agree.
        let c = agree.states.content in
        let (done, held) = impl.set_parent x.0 c em key value p ttl in_range agree.states.held in
        let reading = o.clock u.ticks in
        record {
          readings = reading ∷ [];
          world = record u {
            states = States.set_parent em key value p ttl reading u.states;
            ticks = suc u.ticks;
          };
          equal = λ clock reads. rw (done, reads.0) refl;
          agree = record {
            states = record {
              content = record c { windows = update c.windows (grouping em key value) (some p) };
              held = held;
              represented =
                  (memory.set_parent u c em key value p ttl in_range agree.states.represented).1;
              dated = agree.states.dated;
            };
            rest = moved-SameRest x.1 u x.1.states _ x.1.ticks (suc u.ticks) agree.rest;
          };
          ticks = omega arith;
          good = any-Good (s.set_parent em key value p ttl x.0).0;
        };
  }

  -- Over the in-memory store, GetParent reads the clock: what the other store answers is what some
  -- reading makes of the entry.
  pub get_parent-Simulates :
      (em key value : String)
      → Simulates Holds Any
          (S.state_store.get_parent em key value)
          (λ clock. (T clock).state_store.get_parent em key value)
  unfolding parent_key
  get_parent-Simulates em key value = record {
    run = λ x u agree.
        let c = agree.states.content in
        let g = grouping em key value in
        let found = get u.states.parents g in
        let (q, (given, held), answered) = impl.get_parent x.0 c em key value agree.states.held in
        let (t, seen) =
          reading found q (answers found q c g (agree.states.represented.windows g) answered) in
        record {
          readings = t ∷ [];
          world = record u { ticks = suc u.ticks };
          equal = λ clock reads. rw (given, reads.0, seen) refl;
          agree = record {
            states = record {
              content = c;
              held = held;
              represented = agree.states.represented;
              dated = agree.states.dated;
            };
            rest = moved-SameRest x.1 u x.1.states u.states x.1.ticks (suc u.ticks) agree.rest;
          };
          ticks = omega arith;
          good = any-Good (s.get_parent em key value x.0).0;
        };
  }
