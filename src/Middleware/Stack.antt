-- ===== src/Middleware/Stack.antt =====
-- What a client gets of the platform, and what the access log gets, by how the routes end.
use ai_inference_platform.Prelude.{
  ℕ, ◌≡◌, refl, ap, ◌∙◌, Bool, true, false, not, some, none, Text, List, [], ◌∷◌, ◌++◌,
  if◌then◌else◌,
}
use mathlib.Core.List.{append-nil}
use ai_inference_platform.Errors.{
  Result, ok, err, app_error, unhandled, app_error_handler, unhandled_error_handler, status_code,
  error_code, rate_limit_headers,
}
use ai_inference_platform.Middleware.{
  Request, Response, State, Handler, Line, envelope, is_quiet, or_fresh, echo, logged, correlation,
  logging, Starlette, IsStarlette, caught_last, create_app, response_of,
}

-- The response that a request with an id gets: that of the routes with the id in its header, or an
-- envelope with the id; of an exception that is no application error, the header is missing.
abbrev pub answered : Text → Result Response → Response
answered id (ok r) = record r { x_request_id = some id }
answered id (err (app_error kind message)) = record {
  status_code = status_code kind;
  x_request_id = some id;
  body = envelope (record {
    status = status_code kind;
    success = false;
    code = error_code kind;
    message = message;
    request_id = some id;
    headers = rate_limit_headers kind;
  });
}
answered id (err (unhandled e)) = record {
  status_code = 500;
  x_request_id = none;
  body = envelope (record {
    status = 500;
    success = false;
    code = "internal_error";
    message = "An unexpected error occurred";
    request_id = some id;
    headers = [];
  });
}

abbrev line : Request → (status : ℕ) → Line
line request status = record {
  http_method = request.http_method;
  path = request.path;
  status_code = status;
}

-- The lines of the access log that a request leaves, with the status that the client gets: none for
-- the probes, and none where the exception is no application error.
abbrev pub lines : Request → Result Response → List Line
lines request (ok r) = if is_quiet request.path then [] else line request r.status_code ∷ []
lines request (err (app_error kind message)) =
    if is_quiet request.path then [] else line request (status_code kind) ∷ []
lines request (err (unhandled e)) = []

abbrev pub with_lines : List Line → State → State
with_lines more st = record st { log = st.log ++ more }

-- The answer of the routes as the middleware inside sees it.
abbrev pub seen : Text → Result Response → Result Response
seen id (ok r) = ok r
seen id (err (app_error kind message)) = ok (response_of (app_error_handler (some id) kind message))
seen id (err (unhandled e)) = err (unhandled e)

inside_cors :
    (l : Starlette) (routes : Handler) (request : Request) (st : State) (id : Text)
    (outcome : Result Response) (st' : State)
    → IsStarlette l
    → request.is_preflight ≡ false
    → routes request st ≡ (outcome, st')
    → st'.request_id ≡ some id
    → l.cors (l.exceptions app_error_handler routes) request st ≡ (seen id outcome, st')
inside_cors l routes request st id (ok r) st' sound simple ended kept =
    sound.cors-passes (l.exceptions app_error_handler routes) request st simple
    ∙ (sound.exceptions-catch app_error_handler routes request st ∙ rw ended refl)
inside_cors l routes request st id (err (app_error kind message)) st' sound simple ended kept =
    sound.cors-passes (l.exceptions app_error_handler routes) request st simple
    ∙ (sound.exceptions-catch app_error_handler routes request st ∙ rw (ended, kept) refl)
inside_cors l routes request st id (err (unhandled e)) st' sound simple ended kept =
    sound.cors-passes (l.exceptions app_error_handler routes) request st simple
    ∙ (sound.exceptions-catch app_error_handler routes request st ∙ rw ended refl)

caught-answered :
    (id : Text) (outcome : Result Response) (st : State)
    → st.request_id ≡ some id
    → caught_last unhandled_error_handler (echo id (seen id outcome), st)
      ≡ (ok (answered id outcome), st)
unfolding app_error_handler unhandled_error_handler
caught-answered id (ok r) st kept = refl
caught-answered id (err (app_error kind message)) st kept = refl
caught-answered id (err (unhandled e)) st kept = rw kept refl

no_lines : (st : State) → st ≡ with_lines [] st
no_lines st = rw (append-nil st.log) refl

logged_by :
    (quiet : Bool) (more : Line) (st : State)
    → (if not quiet then with_lines (more ∷ []) st else st)
      ≡ with_lines (if quiet then [] else more ∷ []) st
logged_by true more st = no_lines st
logged_by false more st = refl

logged-lines :
    (request : Request) (id : Text) (outcome : Result Response) (st : State)
    → logged request (seen id outcome) st ≡ with_lines (lines request outcome) st
unfolding app_error_handler
logged-lines request id (ok r) st =
    logged_by (is_quiet request.path) (line request r.status_code) st
logged-lines request id (err (app_error kind message)) st =
    logged_by (is_quiet request.path) (line request (status_code kind)) st
logged-lines request id (err (unhandled e)) st = no_lines st

-- A request that is no preflight is always answered, whatever the routes do, if they leave the id of
-- the request alone: with their response, or with the envelope of their error. The response bears the
-- id of the request, or a fresh one where the request has none, in its header X-Request-ID, and that of
-- an error in its envelope as well; but the header is missing where the error is no application error.
-- The access log gets one line with the method, the path and the status; but none of a request of
-- /health or /metrics, and none where the error is no application error.
pub create_app-answers :
    (l : Starlette) (fresh : Text) (routes : Handler) (request : Request) (st : State)
    (outcome : Result Response) (st' : State)
    → IsStarlette l
    → request.is_preflight ≡ false
    → let id = or_fresh fresh request.x_request_id in
      routes request (record st { request_id = some id }) ≡ (outcome, st')
      → st'.request_id ≡ some id
      → create_app l fresh routes request st
        ≡ (ok (answered id outcome), with_lines (lines request outcome) st')
unfolding create_app
create_app-answers l fresh routes request st outcome st' sound simple ended kept =
    let id = or_fresh fresh request.x_request_id in
    let inner = l.cors (l.exceptions app_error_handler routes) in
    let around = correlation fresh (logging inner) in
    let e =
      inside_cors l routes request (record st { request_id = some id }) id outcome st' sound simple
        ended kept in
    let final = with_lines (lines request outcome) st' in
    let out : around request st ≡ (echo id (seen id outcome), final) =
      unfold correlation logging in rw (e, logged-lines request id outcome st') refl in
    sound.server_error-catch unhandled_error_handler (l.instrument around) request st
    ∙ (ap (caught_last unhandled_error_handler) (sound.instrument-passes around request st ∙ out)
        ∙ caught-answered id outcome final kept)
