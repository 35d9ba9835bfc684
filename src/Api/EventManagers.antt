-- ===== src/Api/EventManagers.antt =====
-- internal/api/event_manager_handler.go. A handler takes what fiber has parsed of the request: the
-- parameter `id` of the path, and the body, which is `none` where it does not parse. `text` is the
-- method `Error` of an error; reading the clock and making a UUID do not fail.
use argus_go.Base.{
  String, Bool, true, false, Option, none, some, List, Result, ok, err, Error, Eff, ◌>>=◌, ◌>>◌,
  pure, ◌==◌, if◌then◌else◌, is,
}
use argus_go.Base.Effect.{event_manager_not_found, event_manager_already_exists}
use argus_go.Domain.{
  Time, EventManager, CreateEventManagerRequest, UpdateEventManagerRequest,
  validate_create_event_manager, validate_update_event_manager, to_event_manager,
  apply_to_event_manager,
}
use argus_go.Store.{EventManagerRepository}
use argus_go.Api.Responses.{
  Response, success, created, no_content, bad_request, validation_error, not_found, conflict,
  internal_error,
}

abbrev pub is_not_found : Error → Bool
is_not_found event_manager_not_found = true
is_not_found _ = false

abbrev pub is_taken : Error → Bool
is_taken event_manager_already_exists = true
is_taken _ = false

pub record EventManagerHandler (W : Type 0) : Type 0 where
  pub repo : EventManagerRepository W
  pub now : Eff W Time
  pub new_id : Eff W String
  pub text : Error → String

-- The response to an error of a lookup or of a deletion.
abbrev not_found_or_failed : {A : Type 0} → String → Error → Response A
not_found_or_failed message e =
    if is is_not_found e then not_found "event manager not found" else internal_error message

module _ {W : Type 0} (h : EventManagerHandler W) where
  abbrev create_response : Result EventManager → Response EventManager
  create_response (ok em) = created em
  create_response (err e) =
      if is is_taken e
      then conflict "event manager already exists"
      else internal_error "failed to create event manager"

  abbrev create_valid : CreateEventManagerRequest → Eff W EventManager
  create_valid req = do
    id ← h.new_id
    now ← h.now
    let em = to_event_manager req id now
    h.repo.create em
    pure em

  abbrev create_checked : CreateEventManagerRequest → Option Error → W → Response EventManager × W
  create_checked req (some e) w = (validation_error (h.text e), w)
  create_checked req none w = let (r, w') = create_valid req w in (create_response r, w')

  unfoldable pub create : Option CreateEventManagerRequest → W → Response EventManager × W
  create none w = (bad_request "invalid request body", w)
  create (some req) w = create_checked req (validate_create_event_manager req) w

  abbrev list_response : Result (List EventManager) → Response (List EventManager)
  list_response (ok l) = success l
  list_response (err e) = internal_error "failed to list event managers"

  unfoldable pub list : W → Response (List EventManager) × W
  list w = let (r, w') = h.repo.list w in (list_response r, w')

  abbrev get_response : Result EventManager → Response EventManager
  get_response (ok em) = success em
  get_response (err e) = not_found_or_failed "failed to get event manager" e

  unfoldable pub get_by_id : String → W → Response EventManager × W
  get_by_id id w =
      if id == ""
      then (bad_request "id is required", w)
      else let (r, w') = h.repo.get_by_id id w in (get_response r, w')

  abbrev update_response : Result EventManager → Response EventManager
  update_response (ok em) = success em
  update_response (err e) = internal_error "failed to update event manager"

  -- "Apply updates" and "Persist changes".
  abbrev save : UpdateEventManagerRequest → EventManager → Eff W EventManager
  save req em = do
    now ← h.now
    let em' = apply_to_event_manager req em now
    h.repo.update em'
    pure em'

  abbrev update_fetched :
      UpdateEventManagerRequest → Result EventManager → W → Response EventManager × W
  update_fetched req (err e) w = (not_found_or_failed "failed to get event manager" e, w)
  update_fetched req (ok em) w = let (r, w') = save req em w in (update_response r, w')

  abbrev update_checked :
      String → UpdateEventManagerRequest → Option Error → W → Response EventManager × W
  update_checked id req (some e) w = (validation_error (h.text e), w)
  update_checked id req none w = let (r, w') = h.repo.get_by_id id w in update_fetched req r w'

  abbrev update_parsed : String → Option UpdateEventManagerRequest → W → Response EventManager × W
  update_parsed id none w = (bad_request "invalid request body", w)
  update_parsed id (some req) w = update_checked id req (validate_update_event_manager req) w

  unfoldable pub update : String → Option UpdateEventManagerRequest → W → Response EventManager × W
  update id body w = if id == "" then (bad_request "id is required", w) else update_parsed id body w

  abbrev delete_response : Result (Unit {0}) → Response (Unit {0})
  delete_response (ok _) = no_content
  delete_response (err e) = not_found_or_failed "failed to delete event manager" e

  unfoldable pub delete : String → W → Response (Unit {0}) × W
  delete id w =
      if id == ""
      then (bad_request "id is required", w)
      else let (r, w') = h.repo.delete id w in (delete_response r, w')
