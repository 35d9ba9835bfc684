-- ===== src/Processor/Contract.antt =====
-- internal/store/memory/state_store.go does what internal/store/state_store.go promises, over the
-- world that the processor works on.
use argus_go.Base.{
  String, Bool, true, false, Option, none, some, List, ok, ◌≡◌, refl, sym, ap, ◌∙◌, ◌⊎◌, inl, arith,
  ◌==◌, ◌&&◌, eq_iff, is_some, if◌then◌else◌,
}
use argus_go.Base.Map.{Map, or_empty, get, put, delete, get-put, get-delete, get-empty}
use argus_go.Domain.{Time}
use argus_go.Store.{ParentState}
use argus_go.Store.Contract.{Content, has, grouping, Gives, Implements}
use argus_go.Memory.States.{
  ParentEntry, MemoryStateStore, parent_key, unexpired, add_child, remove_child,
}
use argus_go.Processor.World.{World, Outside, memory_state_store}

-- `range` over a set visits its elements.
abbrev pub IsRange : (Map (Unit {0}) → List String) → Type 0
IsRange order = (m : Map (Unit {0})) (k : String) → has k (order m) ≡ is_some (get m k)

abbrev pub stored : Option ParentEntry → Option ParentState
stored none = none
stored (some entry) = some entry.state

abbrev has_child : MemoryStateStore → String → String → Bool
has_child s p k = is_some (get (or_empty (get s.children p)) k)

pub record Represents (s : MemoryStateStore) (c : Content) : Type 0 where
  pub windows : (g : String) → stored (get s.parents g) ≡ c.windows g
  pub alerts : (k : String) → get s.alerts k ≡ c.alerts k
  pub pending : (k : String) → get s.pending_resolves k ≡ c.pending k
  pub children : (p k : String) → has_child s p k ≡ c.children p k

abbrev pub Holds : World → Content → Type 0
Holds w c = Represents w.states c

children-add_child :
    (s : MemoryStateStore) (p k q j : String)
    → has_child (add_child p k s) q j ≡ (if p == q && k == j then true else has_child s q j)
children-add_child s p k q j = ground (
  arith,
  eq_iff p q,
  get-put s.children p q (put (or_empty (get s.children p)) k tt),
  get-put (or_empty (get s.children p)) k j tt,
)

children-remove_child :
    (s : MemoryStateStore) (p k q j : String)
    → has_child (remove_child p k s) q j ≡ (if p == q && k == j then false else has_child s q j)
children-remove_child s p k q j = ground (
  arith,
  eq_iff p q,
  get-put s.children p q (delete (or_empty (get s.children p)) k),
  get-empty {V = Unit {0}} j,
  get-delete (or_empty (get s.children p)) k j,
)

unexpired-cases :
    (now : Time) (e : Option ParentEntry) → (unexpired now e ≡ none) ⊎ (unexpired now e ≡ stored e)
unexpired-cases now none = inl refl
unexpired-cases now (some e) = ground arith

module _ (o : Outside) (range : IsRange o.order_set) where
  get_parent-Gives :
      (w : World) (c : Content) (em key value : String)
      → Holds w c
      → (q : Option ParentState) × Gives Holds c q
          ((memory_state_store o).get_parent em key value w)
        × ((q ≡ none) ⊎ (q ≡ c.windows (grouping em key value)))
  unfolding parent_key
  get_parent-Gives w c em key value holds =
      let now = o.clock w.ticks in
      let found = get w.states.parents (grouping em key value) in
      (
        unexpired now found,
        (refl, holds),
        rw (sym (holds.windows (grouping em key value))) (unexpired-cases now found),
      )

  -- Where `range` over a set visits its elements, the in-memory state store implements the contract
  -- of a state store: every setter and deleter, and every getter but GetChildCount, succeeds and
  -- does to the content what its name says and nothing else, where the years of the times that it
  -- stores have four digits; GetParent returns the last parent set for its grouping, or nothing.
  pub memory_state_store-Implements : Implements (memory_state_store o) Holds
  unfolding parent_key
  memory_state_store-Implements = record {
    get_parent = get_parent-Gives;
    set_parent = λ w c em key value p ttl in_range holds. (
      refl,
      record {
        windows = λ g.
            ap stored (get-put w.states.parents (grouping em key value) g _)
            ∙ ground (arith, holds.windows g);
        alerts = holds.alerts;
        pending = holds.pending;
        children = holds.children;
      },
    );
    delete_parent = λ w c em key value holds. (
      refl,
      record {
        windows = λ g.
            ap stored (get-delete w.states.parents (grouping em key value) g)
            ∙ ground (arith, holds.windows g);
        alerts = holds.alerts;
        pending = holds.pending;
        children = holds.children;
      },
    );
    get_alert = λ w c k holds. (ap ok (holds.alerts k), holds);
    set_alert = λ w c a holds. (
      refl,
      record {
        windows = holds.windows;
        alerts = λ k. get-put w.states.alerts a.dedup_key k a ∙ ground (arith, holds.alerts k);
        pending = holds.pending;
        children = holds.children;
      },
    );
    delete_alert = λ w c k holds. (
      refl,
      record {
        windows = holds.windows;
        alerts = λ j. get-delete w.states.alerts k j ∙ ground (arith, holds.alerts j);
        pending = holds.pending;
        children = holds.children;
      },
    );
    add_child = λ w c p k holds. (
      refl,
      record {
        windows = holds.windows;
        alerts = holds.alerts;
        pending = holds.pending;
        children = λ q j. children-add_child w.states p k q j ∙ ground (arith, holds.children q j);
      },
    );
    remove_child = λ w c p k holds. (
      refl,
      record {
        windows = λ g. ground (arith, holds.windows g);
        alerts = λ j. ground (arith, holds.alerts j);
        pending = λ j. ground (arith, holds.pending j);
        children =
            λ q j. children-remove_child w.states p k q j ∙ ground (arith, holds.children q j);
      },
    );
    get_children = λ w c p holds.
        (_, (refl, holds), λ k. range (or_empty (get w.states.children p)) k ∙ holds.children p k);
    set_pending_resolve = λ w c k p in_range holds. (
      refl,
      record {
        windows = holds.windows;
        alerts = holds.alerts;
        pending = λ j. get-put w.states.pending_resolves k j p ∙ ground (arith, holds.pending j);
        children = holds.children;
      },
    );
    get_pending_resolve = λ w c k holds. (ap ok (holds.pending k), holds);
    delete_pending_resolve = λ w c k holds. (
      refl,
      record {
        windows = holds.windows;
        alerts = holds.alerts;
        pending = λ j. get-delete w.states.pending_resolves k j ∙ ground (arith, holds.pending j);
        children = holds.children;
      },
    );
  }
