-- ===== src/Processor/Beside/Reached.antt =====
-- What holds in memory mode holds of the processor over any state store that keeps its contract.
use mathlib.Core.Path.{subst}
use argus_go.Base.{
  ℕ, zero, suc, String, Option, List, [], ◌∷◌, Result, ok, ◌≡◌, refl, sym, ap, ◌∙◌, is_some,
}
use argus_go.Base.Int.{pos}
use argus_go.Base.Map.{get}
use argus_go.Domain.{Time, InternalEvent}
use argus_go.Store.{StateStore, PendingResolve}
use argus_go.Store.Contract.{Content, InRange, Implements, nothing}
use argus_go.Memory.EventManagers.{MemoryEventManagerRepository}
use argus_go.Memory.GroupingRules.{MemoryGroupingRuleRepository}
use argus_go.Queue.{Message}
use argus_go.Processor.{handle_message}
use argus_go.Processor.Contract.{IsRange}
use argus_go.Processor.World.{World, Outside, service, init}
use argus_go.Processor.Invariant.{cached, is_requested, IsCounted, IsWaiting}
use argus_go.Processor.Kept.{Inv, Distinct}
use argus_go.Processor.Reachable.{init-Inv, message-Inv}
use argus_go.Processor.Beside.{service_beside, with_clock, Reads, Agree}
use argus_go.Processor.Beside.Refines.{handle_message-Simulates}

-- A clock that gives `l` from its k-th reading on.
abbrev clock_of : ℕ → List Time → ℕ → Time
clock_of k [] n = pos 0
clock_of zero (t ∷ l) zero = t
clock_of zero (t ∷ l) (suc n) = clock_of zero l n
clock_of (suc k) (t ∷ l) zero = t
clock_of (suc k) (t ∷ l) (suc n) = clock_of k (t ∷ l) n

-- A clock and its successor.
Reads-suc :
    (clock : ℕ → Time) (k : ℕ) (l : List Time)
    → Reads (λ n. clock (suc n)) k l
    → Reads clock (suc k) l
Reads-suc clock k [] r = tt
Reads-suc clock k (t ∷ l) (here, r) = (here, Reads-suc clock (suc k) l r)

clock_of-Reads : (k : ℕ) (l : List Time) → Reads (clock_of k l) k l
clock_of-Reads k [] = tt
clock_of-Reads zero (t ∷ l) = (refl, Reads-suc (clock_of zero (t ∷ l)) 0 l (clock_of-Reads zero l))
clock_of-Reads (suc k) (t ∷ l) =
    Reads-suc (clock_of (suc k) (t ∷ l)) k (t ∷ l) (clock_of-Reads k (t ∷ l))

module _ {W : Type 0} (s : StateStore W) (Holds : W → Content → Type 0) (o : Outside)
    (impl : Implements s Holds) (range : IsRange o.order_set)
    (dates : (n : ℕ) → InRange (o.clock n)) (unmarshal : List ℕ → Option InternalEvent) where
  -- What messages, and writes of event managers and rules, lead to from a state store at `w` that holds
  -- nothing, beside empty repositories.
  pub data Reached (w : W) : W × World → Type 0 where
    start : Reached w (w, init)
    message :
        {x : W × World} (msg : Message)
        → Reached w x
        → Reached w (handle_message (service_beside s o) unmarshal msg x).1
    administration :
        {x : W × World} (ems : MemoryEventManagerRepository) (rules : MemoryGroupingRuleRepository)
        → Reached w x
        → Reached w (x.0, record x.1 { event_managers = ems; grouping_rules = rules })

  init-Agree : (w : W) → Holds w nothing → Agree Holds (w, init) init
  unfolding get
  init-Agree w held = record {
    states = record {
      content = nothing;
      held = held;
      represented = record {
        windows = λ k. refl;
        alerts = λ k. refl;
        pending = λ k. refl;
        children = λ p k. refl;
      };
      dated = λ k p e. cc;
    };
    rest = record {
      repo = refl;
      event_managers = refl;
      grouping_rules = refl;
      log = refl;
      used = refl;
    };
  }

  -- A world of memory mode that satisfies the invariant and agrees.
  abbrev Counterpart : W × World → Type 0
  Counterpart x = (u : World) × Agree Holds x u × Inv o u

  message-Counterpart :
      Distinct o
      → (msg : Message) (x : W × World) → Counterpart x
      → Counterpart (handle_message (service_beside s o) unmarshal msg x).1
  message-Counterpart distinct msg x (u, agree, inv) =
      let done =
        (handle_message-Simulates s Holds o impl range dates unmarshal msg).run x u agree in
      let clock = clock_of u.ticks done.readings in
      let o' = with_clock o clock in
      let before : Inv o' u = record {
        consistent = inv.consistent;
        counted = inv.counted;
        waiting = inv.waiting;
      } in
      let after : Inv o' (handle_message (service o') unmarshal msg u).1 =
        message-Inv o' unmarshal distinct msg before in
      let after' : Inv o' done.world =
        subst (λ (r : Result (Unit {0}) × World). Inv o' r.1)
          (done.equal clock (clock_of-Reads u.ticks done.readings)) after in
      (
        done.world,
        done.agree,
        record {
          consistent = after'.consistent;
          counted = after'.counted;
          waiting = after'.waiting;
        },
      )

  Reached-Counterpart :
      (w : W) (x : W × World) → Holds w nothing → Distinct o → Reached w x → Counterpart x
  Reached-Counterpart w x held distinct start = (init, init-Agree w held, init-Inv o)
  Reached-Counterpart w x held distinct (message {x = y} msg r) =
      message-Counterpart distinct msg y (Reached-Counterpart w y held distinct r)
  Reached-Counterpart w x held distinct (administration {x = y} ems rules r) =
      let (u, agree, inv) = Reached-Counterpart w y held distinct r in
      (
        record u { event_managers = ems; grouping_rules = rules },
        record {
          states = agree.states;
          rest = record {
            repo = agree.rest.repo;
            event_managers = refl;
            grouping_rules = refl;
            log = agree.rest.log;
            used = agree.rest.used;
          };
        },
        record { consistent = inv.consistent; counted = inv.counted; waiting = inv.waiting },
      )

  -- Over any state store that implements the contract and holds nothing at first, where all readings of
  -- the clock have a year of four digits and no UUID comes twice: whatever messages and writes of event
  -- managers and rules lead to, GetAlert returns for every key the state of the stored alert, and
  -- nothing where there is none; GetPendingResolve returns something exactly for the alerts that wait;
  -- every parent counts its children, and every alert that waits has an active child.
  pub Reached-Coherent :
      (w : W) (x : W × World)
      → Holds w nothing
      → Distinct o
      → Reached w x
      → ((k : String) → (s.get_alert k x.0).0 ≡ ok (cached (get x.1.repo.by_dedup_key k)))
        × ((k : String)
            → (p : Option PendingResolve) × ((s.get_pending_resolve k x.0).0 ≡ ok p)
              × (is_some p ≡ is_requested (get x.1.repo.by_dedup_key k)))
        × IsCounted x.1.repo
        × IsWaiting x.1.repo
  Reached-Coherent w x held distinct r =
      let (u, agree, inv) = Reached-Counterpart w x held distinct r in
      let c = agree.states.content in
      let same = agree.states.represented in
      (
        λ k.
            (impl.get_alert x.0 c k agree.states.held).0
            ∙ ap ok (sym (same.alerts k) ∙ inv.consistent.coherent k)
            ∙ ap (λ rep. ok (cached (get rep.by_dedup_key k))) agree.rest.repo,
        λ k. (
          c.pending k,
          (impl.get_pending_resolve x.0 c k agree.states.held).0,
          ap is_some (sym (same.pending k))
              ∙ inv.consistent.pending k
              ∙ ap (λ rep. is_requested (get rep.by_dedup_key k)) agree.rest.repo,
        ),
        rw (sym agree.rest.repo) inv.counted,
        rw (sym agree.rest.repo) inv.waiting,
      )
