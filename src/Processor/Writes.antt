-- ===== src/Processor/Writes.antt =====
-- The writes that the processor makes to both stores, and the invariant.
use argus_go.Base.{
  ℕ, suc, ◌+◌, String, false, none, some, ◌≡◌, arith, eq_iff, ◌==◌, if◌then◌else◌, is_some,
}
use argus_go.Base.Map.{Map, get, put, size, get-put, one}
use argus_go.Domain.{Alert, is_active}
use argus_go.Store.{PendingResolve}
use argus_go.Memory.States.{MemoryStateStore, ParentEntry}
use argus_go.Memory.Alerts.{MemoryAlertRepository, count_active_children, create}
use argus_go.Memory.Alerts.Index.{members, joins, size-index_child, active-index_child}
use argus_go.Memory.Alerts.Invariant.{IsIndexed, create-IsIndexed, overwrite-IsIndexed}
use argus_go.Processor.Invariant.{IsConsistent, IsShaped, HoldsParent, state_of}

-- The alert `a` in the cache, beside a new table of pending resolves.
abbrev pub cache : Alert → Map PendingResolve → MemoryStateStore → MemoryStateStore
cache a q s = record s { alerts = put s.alerts a.dedup_key (state_of a); pending_resolves = q }

-- `a` in the place of the stored `b`, which keeps its identity.
pub record Replaces (r : MemoryAlertRepository) (b a : Alert) : Type 0 where
  pub there : get r.by_dedup_key a.dedup_key ≡ some b
  pub id : a.id ≡ b.id
  pub type : a.type ≡ b.type
  pub parent : a.parent_dedup_key ≡ b.parent_dedup_key

module _ {r : MemoryAlertRepository} (b a : Alert) (rep : Replaces r b a) where
  HoldsParent-overwrite :
      (j : String)
      → HoldsParent (get r.by_dedup_key j)
      → HoldsParent (get (create a r).by_dedup_key j)
  unfolding create
  HoldsParent-overwrite j h =
      ground (arith, get-put r.by_dedup_key a.dedup_key j a, eq_iff a.dedup_key j)

  module _ (v : IsIndexed r) (k : String) where
    -- The children of `k` are as many as before.
    pub size-overwrite : size (members k (create a r).by_parent) ≡ size (members k r.by_parent)
    unfolding create
    size-overwrite = ground (arith, size-index_child k a r.by_parent, v.children k a.dedup_key)

    -- The active children of `k` change by what `a` and `b` count.
    pub active-overwrite :
        count_active_children k (create a r) + (if joins k a then one is_active b else 0)
        ≡ count_active_children k r + (if joins k a then one is_active a else 0)
    unfolding create
    active-overwrite = ground (arith, active-index_child k a r.by_parent, v.children k a.dedup_key)

module _ (r : MemoryAlertRepository) (a : Alert)
    (new_key : get r.by_dedup_key a.dedup_key ≡ none) where
  pub HoldsParent-new :
      (j : String)
      → HoldsParent (get r.by_dedup_key j)
      → HoldsParent (get (create a r).by_dedup_key j)
  unfolding create
  HoldsParent-new j h = ground (arith, get-put r.by_dedup_key a.dedup_key j a, eq_iff a.dedup_key j)

  module _ (v : IsIndexed r) (k : String) where
    -- One child more, if `a` is a child of `k`.
    pub size-new :
        size (members k (create a r).by_parent)
        ≡ (if joins k a then suc (size (members k r.by_parent)) else size (members k r.by_parent))
    unfolding create
    size-new = ground (arith, size-index_child k a r.by_parent, v.children k a.dedup_key)

    pub active-new :
        count_active_children k (create a r)
        ≡ count_active_children k r + (if joins k a then one is_active a else 0)
    unfolding create
    active-new = ground (arith, active-index_child k a r.by_parent, v.children k a.dedup_key)

module _ (uuid : ℕ → String) {s : MemoryStateStore} {r : MemoryAlertRepository} {used : ℕ}
    (v : IsConsistent uuid s r used) where
  pub overwrite-IsConsistent :
      (b a : Alert) (q : Map PendingResolve)
      → Replaces r b a
      → IsShaped a
      → ((k : String)
          → is_some (get q k) ≡ (
              if a.dedup_key == k then a.resolve_requested else is_some (get s.pending_resolves k)))
      → IsConsistent uuid (cache a q s) (create a r) used
  unfolding create
  overwrite-IsConsistent b a q rep shape pend = record {
    index = overwrite-IsIndexed v.index b a rep.there rep.id rep.type rep.parent;
    coherent = λ k. ground (
      arith,
      get-put s.alerts a.dedup_key k (state_of a),
      get-put r.by_dedup_key a.dedup_key k a,
      v.coherent k,
    );
    fresh = λ n h. ground (
      arith,
      get-put r.alerts a.id (uuid n) a,
      eq_iff a.id (uuid n),
      v.fresh n h,
      v.index.stored a.dedup_key b rep.there,
    );
    shaped = λ k c e. ground (arith, get-put r.by_dedup_key a.dedup_key k a, v.shaped k c);
    linked = λ k c e t. HoldsParent-overwrite b a rep c.parent_dedup_key (
        ground
          (arith, get-put r.by_dedup_key a.dedup_key k a, v.linked k c, v.linked a.dedup_key b));
    entries = λ key e h. HoldsParent-overwrite b a rep e.state.dedup_key (v.entries key e h);
    pending = λ k. ground (arith, pend k, v.pending k, get-put r.by_dedup_key a.dedup_key k a);
  }

  -- A write to the repository alone, of an alert that is cached as before.
  pub refresh-IsConsistent :
      (b a : Alert)
      → Replaces r b a
      → state_of a ≡ state_of b
      → IsConsistent uuid s (create a r) used
  unfolding create
  refresh-IsConsistent b a rep same = record {
    index = overwrite-IsIndexed v.index b a rep.there rep.id rep.type rep.parent;
    coherent = λ k.
        ground (arith, get-put r.by_dedup_key a.dedup_key k a, eq_iff a.dedup_key k, v.coherent k);
    fresh = λ n h. ground (
      arith,
      get-put r.alerts a.id (uuid n) a,
      eq_iff a.id (uuid n),
      v.fresh n h,
      v.index.stored a.dedup_key b rep.there,
    );
    shaped = λ k c e. ground (
      arith,
      get-put r.by_dedup_key a.dedup_key k a,
      v.shaped k c,
      v.shaped a.dedup_key b rep.there,
    );
    linked = λ k c e t. HoldsParent-overwrite b a rep c.parent_dedup_key (
        ground
          (arith, get-put r.by_dedup_key a.dedup_key k a, v.linked k c, v.linked a.dedup_key b));
    entries = λ key e h. HoldsParent-overwrite b a rep e.state.dedup_key (v.entries key e h);
    pending = λ k.
        ground (arith, v.pending k, get-put r.by_dedup_key a.dedup_key k a, eq_iff a.dedup_key k);
  }

  -- A new alert under the next UUID, with new tables of parents and of children.
  pub create-IsConsistent :
      (a : Alert) (q : Map ParentEntry) (children : Map (Map (Unit {0})))
      → ((m n : ℕ) → uuid m ≡ uuid n → m ≡ n)
      → get r.by_dedup_key a.dedup_key ≡ none
      → a.id ≡ uuid used
      → IsShaped a
      → a.resolve_requested ≡ false
      → (a.type ≡ "child" → HoldsParent (get r.by_dedup_key a.parent_dedup_key))
      → ((key : String) (e : ParentEntry)
          → get q key ≡ some e
          → HoldsParent (get (create a r).by_dedup_key e.state.dedup_key))
      → IsConsistent uuid
          (record s {
            alerts = put s.alerts a.dedup_key (state_of a);
            parents = q;
            children = children;
          })
          (create a r)
          (suc used)
  unfolding create
  create-IsConsistent a q children distinct new_key id shape idle parent entries = record {
    index = create-IsIndexed v.index a new_key (ground (arith, v.fresh used));
    coherent = λ k. ground (
      arith,
      get-put s.alerts a.dedup_key k (state_of a),
      get-put r.by_dedup_key a.dedup_key k a,
      v.coherent k,
    );
    fresh = λ n h.
        ground (
          arith,
          get-put r.alerts a.id (uuid n) a,
          eq_iff a.id (uuid n),
          v.fresh n,
          distinct used n,
        );
    shaped = λ k c e. ground (arith, get-put r.by_dedup_key a.dedup_key k a, v.shaped k c);
    linked = λ k c e t.
        HoldsParent-new r a new_key c.parent_dedup_key
          (ground (arith, get-put r.by_dedup_key a.dedup_key k a, v.linked k c));
    entries = entries;
    pending = λ k.
        ground (arith, v.pending k, get-put r.by_dedup_key a.dedup_key k a, eq_iff a.dedup_key k);
  }
