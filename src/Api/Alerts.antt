-- ===== src/Api/Alerts.antt =====
-- internal/api/alert_handler.go, and `customErrorHandler` of internal/api/server.go, to which the
-- recovery middleware passes a panic.
use Prim.Native.String as Text
use argus_go.Base.{
  ℕ, String, Bool, true, false, List, Result, ok, err, Error, ◌==◌, if◌then◌else◌, is,
}
use argus_go.Base.Effect.{alert_not_found, panic}
use argus_go.Domain.{Alert, is_parent}
use argus_go.Store.{AlertRepository}
use argus_go.Api.Responses.{Response, success, error, bad_request, not_found, internal_error}
use argus_go.Api.Queries.{AlertQuery, filter_of}

abbrev is_not_found : Error → Bool
is_not_found alert_not_found = true
is_not_found _ = false

abbrev is_panic : Error → Bool
is_panic (panic s) = true
is_panic _ = false

-- An error that reaches fiber: one of its own, with a status, or any other.
pub data RaisedError : Type 0 where
  fiber_error : (status : ℕ) (message : String) → RaisedError
  other : Error → RaisedError

pub record AlertHandler (W : Type 0) : Type 0 where
  pub repo : AlertRepository W
  pub text : Error → String

module _ {A : Type 0} (text : Error → String) where
  abbrev pub custom_error_handler : RaisedError → Response A
  custom_error_handler (fiber_error status message) = error status "INTERNAL_ERROR" message
  custom_error_handler (other e) = internal_error (Text.◌++◌ "unexpected error: " (text e))

module _ {W : Type 0} (h : AlertHandler W) where
  -- A panic of the repository unwinds the handler.
  abbrev list_response : Result (List Alert) → Response (List Alert)
  list_response (ok l) = success l
  list_response (err e) =
      if is_panic e
      then custom_error_handler h.text (other e)
      else internal_error "failed to list alerts"

  unfoldable pub list : AlertQuery → W → Response (List Alert) × W
  list q w = let (r, w') = h.repo.list (filter_of q) w in (list_response r, w')

  abbrev not_found_or_failed : {A : Type 0} → Error → Response A
  not_found_or_failed e =
      if is is_not_found e
      then not_found "alert not found"
      else internal_error "failed to get alert"

  abbrev get_response : Result Alert → Response Alert
  get_response (ok alert) = success alert
  get_response (err e) = not_found_or_failed e

  unfoldable pub get_by_dedup_key : String → W → Response Alert × W
  get_by_dedup_key dedup_key w =
      if dedup_key == ""
      then (bad_request "dedupKey is required", w)
      else let (r, w') = h.repo.get_by_dedup_key dedup_key w in (get_response r, w')

  abbrev children_response : Result (List Alert) → Response (List Alert)
  children_response (ok l) = success l
  children_response (err e) = internal_error "failed to get children"

  -- "Verify it's a parent alert" and "Get children", once the alert is fetched.
  abbrev children_of : String → Result Alert → W → Response (List Alert) × W
  children_of dedup_key (err e) w = (not_found_or_failed e, w)
  children_of dedup_key (ok parent) w =
      if is_parent parent
      then (let (r, w') = h.repo.get_children_by_parent dedup_key w in (children_response r, w'))
      else (bad_request "alert is not a parent alert", w)

  unfoldable pub get_children : String → W → Response (List Alert) × W
  get_children dedup_key w =
      if dedup_key == ""
      then (bad_request "dedupKey is required", w)
      else let (r, w') = h.repo.get_by_dedup_key dedup_key w in children_of dedup_key r w'
