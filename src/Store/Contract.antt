-- ===== src/Store/Contract.antt =====
-- What the processor may expect of a state store (internal/store/state_store.go): an abstract
-- content, and what each operation does to it.
use Prim.Native.String as Text
use argus_go.Base.{
  ◌<◌, String, Bool, true, false, Option, none, some, List, [], ◌∷◌, Result, ok, ◌≡◌, ◌⊎◌, ◌==◌,
  ◌&&◌, ◌||◌, if◌then◌else◌,
}
use argus_go.Base.Int.{pos, negsuc}
use argus_go.Domain.{Duration, Time}
use argus_go.Store.{ParentState, AlertState, PendingResolve, StateStore}

-- `windows` holds the last parent that was set for a grouping, `em:key:value`, though its time may
-- be over.
pub record Content : Type 0 where
  pub windows : String → Option ParentState
  pub alerts : String → Option AlertState
  pub children : String → String → Bool
  pub pending : String → Option PendingResolve

abbrev pub nothing : Content
nothing = record {
  windows = λ k. none;
  alerts = λ k. none;
  children = λ p k. false;
  pending = λ k. none;
}

-- `fmt.Sprintf("%s:%s:%s", …)`, the grouping for which a parent is kept.
abbrev pub grouping : String → String → String → String
grouping em key value = Text.◌++◌ em (Text.◌++◌ ":" (Text.◌++◌ key (Text.◌++◌ ":" value)))

-- A function, changed at one key.
abbrev pub update : {A : Type 0} → (String → A) → String → A → String → A
update f k a j = if k == j then a else f j

abbrev pub update_child : (String → String → Bool) → String → String → Bool → String → String → Bool
update_child f p k a q j = if p == q && k == j then a else f q j

unfoldable pub has : String → List String → Bool
has k [] = false
has k (j ∷ js) = (j == k) || has k js

-- An operation that gives no value, and leaves the store with the content `c`.
abbrev pub Leaves : {W : Type 0} → (W → Content → Type 0) → Content → Result (Unit {0}) × W → Type 0
Leaves Holds c (r, w) = (r ≡ ok tt) × Holds w c

-- An operation that gives a value, and leaves the store's content as it is.
abbrev pub Gives : {W A : Type 0} → (W → Content → Type 0) → Content → A → Result A × W → Type 0
Gives Holds c a (r, w) = (r ≡ ok a) × Holds w c

-- The instants whose year has four digits, which `time.Time` writes as JSON.
abbrev pub InRange : Time → Type 0
InRange (pos n) = n < 253_402_300_800_000_000_000
InRange (negsuc n) = n < 62_167_219_200_000_000_000

-- A store whose world `w` has the content `c` where `Holds w c`. A window may close at any time, so
-- GetParent may find nothing.
pub record Implements {W : Type 0} (s : StateStore W) (Holds : W → Content → Type 0) : Type 0 where
  pub get_parent :
      (w : W) (c : Content) (em key value : String)
      → Holds w c
      → (q : Option ParentState) × Gives Holds c q (s.get_parent em key value w)
        × ((q ≡ none) ⊎ (q ≡ c.windows (grouping em key value)))
  pub set_parent :
      (w : W) (c : Content) (em key value : String) (p : ParentState) (ttl : Duration)
      → InRange p.created_at
      → Holds w c
      → Leaves Holds
          (record c { windows = update c.windows (grouping em key value) (some p) })
          (s.set_parent em key value p ttl w)
  pub delete_parent :
      (w : W) (c : Content) (em key value : String)
      → Holds w c
      → Leaves Holds
          (record c { windows = update c.windows (grouping em key value) none })
          (s.delete_parent em key value w)
  pub get_alert :
      (w : W) (c : Content) (k : String) → Holds w c → Gives Holds c (c.alerts k) (s.get_alert k w)
  pub set_alert :
      (w : W) (c : Content) (a : AlertState)
      → Holds w c
      → Leaves Holds (record c { alerts = update c.alerts a.dedup_key (some a) }) (s.set_alert a w)
  pub delete_alert :
      (w : W) (c : Content) (k : String)
      → Holds w c
      → Leaves Holds (record c { alerts = update c.alerts k none }) (s.delete_alert k w)
  pub add_child :
      (w : W) (c : Content) (p k : String)
      → Holds w c
      → Leaves Holds (record c { children = update_child c.children p k true }) (s.add_child p k w)
  pub remove_child :
      (w : W) (c : Content) (p k : String)
      → Holds w c
      → Leaves Holds
          (record c { children = update_child c.children p k false })
          (s.remove_child p k w)
  pub get_children :
      (w : W) (c : Content) (p : String)
      → Holds w c
      → (js : List String) × Gives Holds c js (s.get_children p w)
        × ((k : String) → has k js ≡ c.children p k)
  pub set_pending_resolve :
      (w : W) (c : Content) (k : String) (p : PendingResolve)
      → InRange p.requested_at
      → Holds w c
      → Leaves Holds
          (record c { pending = update c.pending k (some p) })
          (s.set_pending_resolve k p w)
  pub get_pending_resolve :
      (w : W) (c : Content) (k : String)
      → Holds w c
      → Gives Holds c (c.pending k) (s.get_pending_resolve k w)
  pub delete_pending_resolve :
      (w : W) (c : Content) (k : String)
      → Holds w c
      → Leaves Holds (record c { pending = update c.pending k none }) (s.delete_pending_resolve k w)
