-- ===== src/Processor/Beside/Calls.antt =====
-- The calls that the processor makes, over another state store as in memory mode.
use argus_go.Base.{ℕ, suc, List, [], ◌∷◌, Result, ok, err, Eff, ◌≡◌, refl, ap, arith}
use argus_go.Base.Int.{pos}
use argus_go.Domain.{Time}
use argus_go.Store.{StateStore}
use argus_go.Store.Lifted.{on_part}
use argus_go.Store.Contract.{Content, InRange, Leaves, Gives}
use argus_go.Memory.States.{MemoryStateStore}
use argus_go.Memory.Alerts.{MemoryAlertRepository}
use argus_go.Processor.{Service}
use argus_go.Notification.{Notice}
use argus_go.Processor.Contract.{Represents}
use argus_go.Processor.World.{World, Outside, on_states, on_repo, ask, query, service}
use argus_go.Processor.Beside.{
  first, second, service_beside, with_clock, Dated, SameRest, Good, Simulates,
}

abbrev pub Any : {A : Type 0} → A → Type 0
Any a = Unit

pub any-Good : {A : Type 0} (r : Result A) → Good Any r
any-Good (ok a) = tt
any-Good (err e) = tt

-- The state stores and the ticks of both may change.
pub moved-SameRest :
    (v u : World) (a b : MemoryStateStore) (n k : ℕ)
    → SameRest v u
    → SameRest (record v { states = a; ticks = n }) (record u { states = b; ticks = k })
moved-SameRest v u a b n k same = record {
  repo = same.repo;
  event_managers = same.event_managers;
  grouping_rules = same.grouping_rules;
  log = same.log;
  used = same.used;
}

module _ {W : Type 0} (s : StateStore W) (Holds : W → Content → Type 0) (o : Outside) where
  abbrev S : Service (W × World)
  S = service_beside s o

  abbrev T : (ℕ → Time) → Service World
  T clock = service (with_clock o clock)

  pub now-Simulates :
      ((n : ℕ) → InRange (o.clock n)) → Simulates Holds InRange S.now (λ clock. (T clock).now)
  now-Simulates dates = record {
    run = λ x u agree. record {
      readings = o.clock x.1.ticks ∷ [];
      world = record u { ticks = suc u.ticks };
      equal = λ clock reads. rw reads.0 refl;
      agree = record {
        states = agree.states;
        rest = moved-SameRest x.1 u x.1.states u.states (suc x.1.ticks) (suc u.ticks) agree.rest;
      };
      ticks = omega arith;
      good = dates x.1.ticks;
    };
  }

  pub new_id-Simulates : Simulates Holds Any S.new_id (λ clock. (T clock).new_id)
  new_id-Simulates = record {
    run = λ x u agree. record {
      readings = [];
      world = record u { used = suc u.used };
      equal = λ clock reads. rw agree.rest.used refl;
      agree = record {
        states = agree.states;
        rest = record {
          repo = agree.rest.repo;
          event_managers = agree.rest.event_managers;
          grouping_rules = agree.rest.grouping_rules;
          log = agree.rest.log;
          used = ap suc agree.rest.used;
        };
      };
      ticks = omega arith;
      good = tt;
    };
  }

  -- A call that reads what both worlds have.
  pub query-Simulates :
      {A : Type 0} (f : World → Result A)
      → ((v u : World) → SameRest v u → f u ≡ f v)
      → Simulates Holds Any (on_part second (query f)) (λ clock. query f)
  query-Simulates f same = record {
    run = λ x u agree. record {
      readings = [];
      world = u;
      equal = λ clock reads. rw (same x.1 u agree.rest) refl;
      agree = agree;
      ticks = omega arith;
      good = any-Good (f x.1);
    };
  }

  -- A write to the repository of alerts.
  pub on_repo-Simulates :
      (f : MemoryAlertRepository → Result (Unit {0}) × MemoryAlertRepository)
      → Simulates Holds Any (on_part second (on_repo f)) (λ clock. on_repo f)
  on_repo-Simulates f = record {
    run = λ x u agree. record {
      readings = [];
      world = record u { repo = (f u.repo).1 };
      equal = λ clock reads. rw agree.rest.repo refl;
      agree = record {
        states = agree.states;
        rest = record {
          repo = ap (λ r. (f r).1) agree.rest.repo;
          event_managers = agree.rest.event_managers;
          grouping_rules = agree.rest.grouping_rules;
          log = agree.rest.log;
          used = agree.rest.used;
        };
      };
      ticks = omega arith;
      good = any-Good (f x.1.repo).0;
    };
  }

  -- A notice, whose time the stub leaves out.
  pub notify-Simulates :
      (f : List Notice → List Notice)
      → Simulates Holds Any
          (λ x. (ok tt, (x.0, record x.1 { log = f x.1.log; ticks = suc x.1.ticks })))
          (λ clock u. (ok tt, record u { log = f u.log; ticks = suc u.ticks }))
  notify-Simulates f = record {
    run = λ x u agree. record {
      readings = pos 0 ∷ [];
      world = record u { log = f u.log; ticks = suc u.ticks };
      equal = λ clock reads. refl;
      agree = record {
        states = agree.states;
        rest = record {
          repo = agree.rest.repo;
          event_managers = agree.rest.event_managers;
          grouping_rules = agree.rest.grouping_rules;
          log = ap f agree.rest.log;
          used = agree.rest.used;
        };
      };
      ticks = omega arith;
      good = tt;
    };
  }

  -- A write to the state store, which changes the content of both in one way.
  pub on_states-Simulates :
      (m : Eff W Unit) (f : MemoryStateStore → MemoryStateStore) (change : Content → Content)
      → ((w : W) (c : Content) → Holds w c → Leaves Holds (change c) (m w))
      → ((u : World) (c : Content) → Represents u.states c → Represents (f u.states) (change c))
      → ((c : Content) → Dated c → Dated (change c))
      → Simulates Holds Any (on_part first m) (λ clock. on_states f)
  on_states-Simulates m f change left right dated = record {
    run = λ x u agree.
        let (done, held) = left x.0 agree.states.content agree.states.held in
        record {
          readings = [];
          world = record u { states = f u.states };
          equal = λ clock reads. rw done refl;
          agree = record {
            states = record {
              content = change agree.states.content;
              held = held;
              represented = right u agree.states.content agree.states.represented;
              dated = dated agree.states.content agree.states.dated;
            };
            rest = moved-SameRest x.1 u x.1.states (f u.states) x.1.ticks u.ticks agree.rest;
          };
          ticks = omega arith;
          good = any-Good (m x.0).0;
        };
  }

  -- A call that reads the state store.
  pub gives-Simulates :
      {A : Type 0} (Q : A → Type 0) (m : Eff W A) (f : MemoryStateStore → A) (value : Content → A)
      → ((w : W) (c : Content) → Holds w c → Gives Holds c (value c) (m w))
      → ((u : World) (c : Content) → Represents u.states c → f u.states ≡ value c)
      → ((c : Content) → Dated c → Q (value c))
      → Simulates Holds Q (on_part first m) (λ clock. ask (λ u. f u.states))
  gives-Simulates Q m f value left right good = record {
    run = λ x u agree.
        let c = agree.states.content in
        let (given, held) = left x.0 c agree.states.held in
        record {
          readings = [];
          world = u;
          equal = λ clock reads. rw (given, right u c agree.states.represented) refl;
          agree = record {
            states = record {
              content = c;
              held = held;
              represented = agree.states.represented;
              dated = agree.states.dated;
            };
            rest = agree.rest;
          };
          ticks = omega arith;
          good = rw given (good c agree.states.dated);
        };
  }
