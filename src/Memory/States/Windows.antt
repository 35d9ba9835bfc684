-- ===== src/Memory/States/Windows.antt =====
-- The windows of internal/store/memory/state_store.go: what GetParent returns after SetParent.
use argus_go.Base.{String, none, some, ◌≡◌, arith, ◌==◌, if◌then◌else◌}
use argus_go.Base.Int.{◌+ℤ◌, lt_ℤ}
use argus_go.Base.Map.{get-put}
use argus_go.Domain.{Time, Duration}
use argus_go.Store.{ParentState}
use argus_go.Memory.States.{MemoryStateStore, parent_key, get_parent, set_parent}

-- After SetParent, GetParent under the same key returns the parent up to the end of the window, that
-- moment included, and nothing after it; under any other key it returns what it returned before.
pub get_parent-set_parent :
    (em key value em' key' value' : String) (p : ParentState) (ttl : Duration) (now later : Time)
    (s : MemoryStateStore)
    → get_parent em' key' value' later (set_parent em key value p ttl now s) ≡ (
        if parent_key em key value == parent_key em' key' value'
        then (if lt_ℤ (now +ℤ ttl) later then none else some p)
        else get_parent em' key' value' later s)
get_parent-set_parent em key value em' key' value' p ttl now later s = ground (
  arith,
  get-put s.parents (parent_key em key value) (parent_key em' key' value')
      (record { state = p; expires_at = now +ℤ ttl }),
)
