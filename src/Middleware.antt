-- ===== src/Middleware.antt =====
-- backend/app/middleware/correlation.py, backend/app/middleware/logging.py and `create_app` of
-- backend/app/main.py: what stands around the routes. Of a request and a response there is what these
-- read and write. Starlette is an argument, and so are the routes and the fresh id of a request; a
-- handler runs on the state of the request and the access log.
pub mod Stack
use ai_inference_platform.Prelude.{
  ℕ, String, Bool, true, false, not, ◌||◌, Option, none, some, List, [], ◌∷◌, ◌++◌, Text, text,
  text_eq, if◌then◌else◌, ◌≡◌,
}
use ai_inference_platform.Errors.{
  Kind, Exception, Error, Result, ok, err, app_error, unhandled, ErrorResponse, app_error_handler,
  unhandled_error_handler,
}

pub record Request : Type 0 where
  pub http_method : Text
  pub path : Text
  pub x_request_id : Option Text
  pub is_preflight : Bool

-- The body of an error is an envelope; other content is passed through.
pub data Body : Type 0 where
  content : Text → Body
  envelope : ErrorResponse → Body

pub record Response : Type 0 where
  pub status_code : ℕ
  pub x_request_id : Option Text
  pub body : Body

-- A line of the access log.
pub record Line : Type 0 where
  pub http_method : Text
  pub path : Text
  pub status_code : ℕ

-- `request.state`, and the log.
pub record State : Type 0 where
  pub request_id : Option Text
  pub log : List Line

abbrev pub Handler : Type 0
Handler = Request → State → Result Response × State

-- `request.headers.get(CORRELATION_ID_HEADER) or str(uuid.uuid4())`
abbrev pub or_fresh : Text → Option Text → Text
or_fresh fresh none = fresh
or_fresh fresh (some []) = fresh
or_fresh fresh (some (c ∷ t)) = c ∷ t

abbrev pub echo : Text → Result Response → Result Response
echo id (ok r) = ok (record r { x_request_id = some id })
echo id (err e) = err e

-- `CorrelationMiddleware.dispatch`
unfoldable pub correlation : (fresh : Text) → Handler → Handler
correlation fresh call_next request st =
    let request_id = or_fresh fresh request.x_request_id in
    let (r, st') = call_next request (record st { request_id = some request_id }) in
    (echo request_id r, st')

abbrev pub is_quiet : Text → Bool
is_quiet path = text_eq path (text "/health") || text_eq path (text "/metrics")

abbrev pub logged : Request → Result Response → State → State
logged request (err e) st = st
logged request (ok r) st =
    if not (is_quiet request.path)
    then record st {
      log =
          st.log
          ++ record {
            http_method = request.http_method;
            path = request.path;
            status_code = r.status_code;
          }
            ∷ [];
    }
    else st

-- `LoggingMiddleware.dispatch`
unfoldable pub logging : Handler → Handler
unfolding text_eq
logging call_next request st = let (r, st') = call_next request st in (r, logged request r st')

abbrev pub response_of : ErrorResponse → Response
response_of e = record { status_code = e.status; x_request_id = none; body = envelope e }

-- What Starlette and the instrumentation put around the routes: the middleware of CORS and of
-- Prometheus, the one that calls the handlers of the exceptions' classes, and the one outside all
-- others, that calls the handler of `Exception`.
pub record Starlette : Type 0 where
  pub cors : Handler → Handler
  pub instrument : Handler → Handler
  pub exceptions : (Option Text → Kind → String → ErrorResponse) → Handler → Handler
  pub server_error : (Option Text → Exception → ErrorResponse) → Handler → Handler

abbrev pub caught :
    (Option Text → Kind → String → ErrorResponse)
    → Result Response × State
    → Result Response × State
caught h (ok r, st) = (ok r, st)
caught h (err (app_error kind message), st) = (ok (response_of (h st.request_id kind message)), st)
caught h (err (unhandled e), st) = (err (unhandled e), st)

abbrev pub caught_last :
    (Option Text → Exception → ErrorResponse) → Result Response × State → Result Response × State
caught_last h (ok r, st) = (ok r, st)
caught_last h (err (app_error kind message), st) = (err (app_error kind message), st)
caught_last h (err (unhandled e), st) = (ok (response_of (h st.request_id e)), st)

-- What is documented of them. Of the headers that CORS adds nothing is said; a preflight request it
-- answers itself.
pub record IsStarlette (l : Starlette) : Type 0 where
  pub cors-passes :
      (next : Handler) (request : Request) (st : State)
      → request.is_preflight ≡ false
      → l.cors next request st ≡ next request st
  pub instrument-passes :
      (next : Handler) (request : Request) (st : State)
      → l.instrument next request st ≡ next request st
  pub exceptions-catch :
      (h : Option Text → Kind → String → ErrorResponse) (next : Handler) (request : Request)
      (st : State)
      → l.exceptions h next request st ≡ caught h (next request st)
  pub server_error-catch :
      (h : Option Text → Exception → ErrorResponse) (next : Handler) (request : Request)
      (st : State)
      → l.server_error h next request st ≡ caught_last h (next request st)

-- The order in which `create_app` adds them makes the last one the outermost.
unfoldable pub create_app : Starlette → (fresh : Text) → (routes : Handler) → Handler
create_app l fresh routes =
    l.server_error unhandled_error_handler
      (l.instrument (correlation fresh (logging (l.cors (l.exceptions app_error_handler routes)))))
