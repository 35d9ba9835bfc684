-- ===== src/Processor/Invariant.antt =====
-- What the in-memory stores satisfy between two messages.
use argus_go.Base.{
  ℕ, ◌%◌, ◌≤◌, ◌<◌, String, Bool, true, false, Option, none, some, ◌≡◌, ◌≢◌, ◌⊎◌, is_some,
}
use argus_go.Base.Int.{two_64}
use argus_go.Base.Map.{get, size}
use argus_go.Domain.{Alert}
use argus_go.Store.{AlertState}
use argus_go.Memory.States.{MemoryStateStore, ParentEntry}
use argus_go.Memory.Alerts.{MemoryAlertRepository, count_active_children}
use argus_go.Memory.Alerts.Index.{members}
use argus_go.Memory.Alerts.Invariant.{IsIndexed}

-- The state that is cached for an alert.
abbrev pub state_of : Alert → AlertState
state_of a = record {
  dedup_key = a.dedup_key;
  event_manager_id = a.event_manager_id;
  type = a.type;
  status = a.status;
  parent_dedup_key = a.parent_dedup_key;
  resolve_requested = a.resolve_requested;
}

abbrev pub cached : Option Alert → Option AlertState
cached none = none
cached (some a) = some (state_of a)

-- Whether a resolve of the alert waits for its children.
abbrev pub is_requested : Option Alert → Bool
is_requested none = false
is_requested (some a) = a.resolve_requested

abbrev pub HoldsParent : Option Alert → Type 0
HoldsParent none = ⊥
HoldsParent (some a) = a.type ≡ "parent"

-- The words that an alert may hold; only an active parent waits.
pub record IsShaped (a : Alert) : Type 0 where
  pub status : (a.status ≡ "active") ⊎ (a.status ≡ "resolved")
  pub type : (a.type ≡ "parent") ⊎ (a.type ≡ "child")
  pub requested : a.resolve_requested ≡ true → (a.type ≡ "parent") × (a.status ≡ "active")

pub record IsConsistent (uuid : ℕ → String) (s : MemoryStateStore) (r : MemoryAlertRepository)
    (used : ℕ) : Type 0 where
  pub index : IsIndexed r
  pub coherent : (k : String) → get s.alerts k ≡ cached (get r.by_dedup_key k)
  pub fresh : (n : ℕ) → used ≤ n → get r.alerts (uuid n) ≡ none
  pub shaped : (k : String) (a : Alert) → get r.by_dedup_key k ≡ some a → IsShaped a
  pub linked :
      (k : String) (a : Alert)
      → get r.by_dedup_key k ≡ some a
      → a.type ≡ "child"
      → HoldsParent (get r.by_dedup_key a.parent_dedup_key)
  pub entries :
      (key : String) (e : ParentEntry)
      → get s.parents key ≡ some e
      → HoldsParent (get r.by_dedup_key e.state.dedup_key)
  pub pending :
      (k : String) → is_some (get s.pending_resolves k) ≡ is_requested (get r.by_dedup_key k)

-- A parent counts the children that the index lists for it, up to the wrap-around. The index
-- lists none for the empty key.
abbrev pub IsCounted : MemoryAlertRepository → Type 0
IsCounted r =
    (k : String) (a : Alert)
    → k ≢ ""
    → get r.by_dedup_key k ≡ some a
    → a.type ≡ "parent"
    → a.child_count ≡ size (members k r.by_parent) % two_64

-- Every parent that waits has a child that is still active.
abbrev pub IsWaiting : MemoryAlertRepository → Type 0
IsWaiting r =
    (k : String) → is_requested (get r.by_dedup_key k) ≡ true → 0 < count_active_children k r
