-- ===== src/Processor/Beside.antt =====
-- internal/processor/service.go over any state store beside the in-memory repositories, and what it
-- means that it does what it does in memory mode. The two clocks need not give the same readings, since
-- a window of the other store may close at any time.
pub mod Rules
pub mod Calls
pub mod States
pub mod Alike
pub mod Handlers
pub mod Refines
pub mod Reached
use argus_go.Base.{
  ℕ, suc, ◌+◌, String, Option, some, List, [], ◌∷◌, ◌++◌, Result, ok, err, Eff, ◌>>=◌, ◌≡◌, refl,
  arith,
}
use argus_go.Base.Lists.{length}
use argus_go.Domain.{Time}
use argus_go.Store.{StateStore, PendingResolve}
use argus_go.Store.Contract.{Content, InRange}
use argus_go.Store.Lifted.{
  Part, on_part, state_store_on, alerts_on, event_managers_on, grouping_rules_on,
}
use argus_go.Memory.States.{MemoryStateStore}
use argus_go.Processor.{Service}
use argus_go.Processor.Contract.{Represents}
use argus_go.Processor.World.{
  World, Outside, now, new_id, memory_alert_repository, memory_event_manager_repository,
  memory_grouping_rule_repository, stub_notifier,
}

abbrev pub first : {W : Type 0} → Part W (W × World)
first = record { view = λ x. x.0; set = λ w x. (w, x.1) }

abbrev pub second : {W : Type 0} → Part World (W × World)
second = record { view = λ x. x.1; set = λ u x. (x.0, u) }

-- The processor with the state store `s`; the state store of the second part is not used.
abbrev pub service_beside : {W : Type 0} → StateStore W → Outside → Service (W × World)
service_beside s o = record {
  state_store = state_store_on first s;
  alert_repo = alerts_on second (memory_alert_repository o);
  event_manager_repo = event_managers_on second (memory_event_manager_repository o);
  grouping_rule_repo = grouping_rules_on second (memory_grouping_rule_repository o);
  notifier = record {
    notify_new_parent = λ a em x. (x.0, (stub_notifier o).notify_new_parent a em x.1);
    notify_resolved = λ a em x. (x.0, (stub_notifier o).notify_resolved a em x.1);
  };
  now = on_part second (now o);
  new_id = on_part second (new_id o);
}

abbrev pub with_clock : Outside → (ℕ → Time) → Outside
with_clock o clock = record o { clock = clock }

-- From its k-th reading on, the clock gives `l`.
abbrev pub Reads : (ℕ → Time) → ℕ → List Time → Type 0
Reads clock k [] = Unit
Reads clock k (t ∷ l) = (clock k ≡ t) × Reads clock (suc k) l

abbrev pub Dated : Content → Type 0
Dated c = (k : String) (p : PendingResolve) → c.pending k ≡ some p → InRange p.requested_at

-- All but the state stores and the ticks is the same.
pub record SameRest (v u : World) : Type 0 where
  pub repo : u.repo ≡ v.repo
  pub event_managers : u.event_managers ≡ v.event_managers
  pub grouping_rules : u.grouping_rules ≡ v.grouping_rules
  pub log : u.log ≡ v.log
  pub used : u.used ≡ v.used

-- What an action gives satisfies `Q`, if it gives anything.
abbrev pub Good : {A : Type 0} → (A → Type 0) → Result A → Type 0
Good Q (ok a) = Q a
Good Q (err e) = Unit

module _ {W : Type 0} (Holds : W → Content → Type 0) where
  -- The two state stores hold one content, whose times can be stored again.
  pub record SameStates (w : W) (states : MemoryStateStore) : Type 0 where
    pub content : Content
    pub held : Holds w content
    pub represented : Represents states content
    pub dated : Dated content

  pub record Agree (x : W × World) (u : World) : Type 0 where
    pub states : SameStates x.0 u.states
    pub rest : SameRest x.1 u

  -- What an action of memory mode comes to where the other one returned `r` and left `x`: with some
  -- readings of the clock it returns the same and leaves a world that agrees.
  pub record Outcome {A : Type 0} (Q : A → Type 0) (u : World) (n : (ℕ → Time) → Result A × World)
      (r : Result A) (x : W × World) : Type 0 where
    pub readings : List Time
    pub world : World
    pub equal : (clock : ℕ → Time) → Reads clock u.ticks readings → n clock ≡ (r, world)
    pub agree : Agree x world
    pub ticks : world.ticks ≡ u.ticks + length readings
    pub good : Good Q r

  -- The action `m` over the other store does what `n` does in memory mode.
  pub record Simulates {A : Type 0} (Q : A → Type 0) (m : Eff (W × World) A)
      (n : (ℕ → Time) → Eff World A) : Type 0 where
    pub run :
        (x : W × World) (u : World) → Agree x u → Outcome Q u (λ clock. n clock u) (m x).0 (m x).1
