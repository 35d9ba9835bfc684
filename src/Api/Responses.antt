-- ===== src/Api/Responses.antt =====
-- internal/api/response.go: the envelope of every response, its status and its body.
use argus_go.Base.{ℕ, String, Bool, true, false, Option, none, some}

pub record ApiError : Type 0 where
  pub code : String
  pub message : String

pub record ApiResponse (A : Type 0) : Type 0 where
  pub success : Bool
  pub payload : Option A
  pub error : Option ApiError

-- What fiber sends; `none` is an empty body.
pub record Response (A : Type 0) : Type 0 where
  pub status : ℕ
  pub body : Option (ApiResponse A)

module _ {A : Type 0} where
  abbrev pub success_with_status : ℕ → A → Response A
  success_with_status status payload = record {
    status = status;
    body = some (record { success = true; payload = some payload; error = none });
  }

  abbrev pub success : A → Response A
  success payload = success_with_status 200 payload

  abbrev pub created : A → Response A
  created payload = success_with_status 201 payload

  abbrev pub accepted : A → Response A
  accepted payload = success_with_status 202 payload

  abbrev pub no_content : Response A
  no_content = record { status = 204; body = none }

  abbrev pub error : ℕ → String → String → Response A
  error status code message = record {
    status = status;
    body = some (record {
      success = false;
      payload = none;
      error = some (record { code = code; message = message });
    });
  }

  abbrev pub bad_request : String → Response A
  bad_request message = error 400 "BAD_REQUEST" message

  abbrev pub validation_error : String → Response A
  validation_error message = error 400 "VALIDATION_FAILED" message

  abbrev pub not_found : String → Response A
  not_found message = error 404 "NOT_FOUND" message

  abbrev pub conflict : String → Response A
  conflict message = error 409 "CONFLICT" message

  abbrev pub internal_error : String → Response A
  internal_error message = error 500 "INTERNAL_ERROR" message
