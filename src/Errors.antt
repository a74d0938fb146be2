-- ===== src/Errors.antt =====
-- backend/app/utils/errors.py and backend/app/middleware/error_handler.py: the application's
-- exceptions, and the responses that the two handlers make of an exception.
use ai_inference_platform.Prelude.{
  ℕ, String, ◌≡◌, ◌⊎◌, inl, inr, refl, Bool, false, Option, List, [], ◌∷◌, Text,
}

-- The subclasses of `AppError`; a rate limit error carries its `retry_after`.
pub data Kind : Type 0 where
  internal not_found validation unauthorized token_expired invalid_credentials forbidden : Kind
  cross_org_access inference_unavailable inference_timeout model_not_loaded : Kind
  rate_limit : ℕ → Kind

-- The exceptions of Python and of its libraries that the code can meet and does not make `AppError`s.
pub data Exception : Type 0 where
  value_error attribute_error integrity_error data_error no_result_found key_error : Exception
  type_error programming_error connection_error runtime_error : Exception

pub data Error : Type 0 where
  app_error : Kind → String → Error
  unhandled : Exception → Error

pub data Result {ℓ} (A : Type ℓ) : Type ℓ where
  ok : A → Result A
  err : Error → Result A

unfoldable pub status_code : Kind → ℕ
status_code internal = 500
status_code not_found = 404
status_code validation = 400
status_code unauthorized = 401
status_code token_expired = 401
status_code invalid_credentials = 401
status_code forbidden = 403
status_code cross_org_access = 403
status_code inference_unavailable = 503
status_code inference_timeout = 504
status_code model_not_loaded = 422
status_code (rate_limit retry_after) = 429

-- The `code` that a client sees.
unfoldable pub error_code : Kind → String
error_code internal = "internal_error"
error_code not_found = "not_found"
error_code validation = "validation_error"
error_code unauthorized = "unauthorized"
error_code token_expired = "token_expired"
error_code invalid_credentials = "invalid_credentials"
error_code forbidden = "forbidden"
error_code cross_org_access = "cross_org_access"
error_code inference_unavailable = "inference_unavailable"
error_code inference_timeout = "inference_timeout"
error_code model_not_loaded = "model_not_loaded"
error_code (rate_limit retry_after) = "rate_limit_exceeded"

-- The message where the exception is raised without one.
unfoldable pub default_message : Kind → String
default_message internal = "An unexpected error occurred"
default_message not_found = "Resource not found"
default_message validation = "Request validation failed"
default_message unauthorized = "Authentication required"
default_message token_expired = "Token has expired"
default_message invalid_credentials = "Invalid email or password"
default_message forbidden = "Insufficient permissions"
default_message cross_org_access = "Cross-organization access is not permitted"
default_message inference_unavailable = "Inference engine is unavailable"
default_message inference_timeout = "Inference request timed out"
default_message model_not_loaded = "Model is registered but not currently loaded"
default_message (rate_limit retry_after) = "Rate limit exceeded"

-- A response with the standard error envelope; the values of its headers are numbers.
pub record ErrorResponse : Type 0 where
  pub status : ℕ
  pub success : Bool
  pub code : String
  pub message : String
  pub request_id : Option Text
  pub headers : List (String × ℕ)

unfoldable pub rate_limit_headers : Kind → List (String × ℕ)
rate_limit_headers (rate_limit retry_after) =
    ("Retry-After", retry_after) ∷ ("X-RateLimit-Remaining", 0) ∷ []
rate_limit_headers _ = []

unfoldable pub app_error_handler : Option Text → Kind → String → ErrorResponse
unfolding status_code error_code rate_limit_headers
app_error_handler request_id kind message = record {
  status = status_code kind;
  success = false;
  code = error_code kind;
  message = message;
  request_id = request_id;
  headers = rate_limit_headers kind;
}

unfoldable pub unhandled_error_handler : Option Text → Exception → ErrorResponse
unhandled_error_handler request_id exception = record {
  status = 500;
  success = false;
  code = "internal_error";
  message = "An unexpected error occurred";
  request_id = request_id;
  headers = [];
}

-- The handlers that `create_app` registers, by the exception's class.
unfoldable pub handle_error : Option Text → Error → ErrorResponse
unfolding app_error_handler unhandled_error_handler
handle_error request_id (app_error kind message) = app_error_handler request_id kind message
handle_error request_id (unhandled exception) = unhandled_error_handler request_id exception

pub Result-cases {ℓ} :
    {A : Type ℓ} (r : Result A) → ((e : Error) × (r ≡ err e)) ⊎ ((a : A) × (r ≡ ok a))
Result-cases (ok a) = inr (a, refl)
Result-cases (err e) = inl (e, refl)
