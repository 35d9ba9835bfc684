-- ===== src/Domain/Validation.antt =====
-- What validation accepts, and what it reports.
use argus_go.Base.{◌≡◌, ◌≢◌, ◌↔◌, ◌⊎◌, none, arith, eq_iff}
use argus_go.Domain.Events.{Event, validate_event}

-- An event that the API may pass on.
abbrev pub WellFormed : Event → Type 0
WellFormed e =
    (e.event_manager_id ≢ "")
    × (e.summary ≢ "")
    × ((e.severity ≡ "high") ⊎ ((e.severity ≡ "medium") ⊎ (e.severity ≡ "low")))
    × ((e.action ≡ "trigger") ⊎ (e.action ≡ "resolve"))
    × (e.dedup_key ≢ "")

-- Validation of an event reports no error exactly when every required field is there and the
-- severity and the action are known words.
pub validate_event-none_iff : (e : Event) → (validate_event e ≡ none) ↔ WellFormed e
unfolding validate_event
validate_event-none_iff e = ground (
  arith,
  eq_iff e.event_manager_id "",
  eq_iff e.summary "",
  eq_iff e.severity "high",
  eq_iff e.severity "medium",
  eq_iff e.severity "low",
  eq_iff e.action "trigger",
  eq_iff e.action "resolve",
  eq_iff e.dedup_key "",
)
