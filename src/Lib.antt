-- ===== src/Lib.antt =====
-- The backend of the AI inference platform (backend/app): accounts and their sessions, the limits
-- on requests, the conversations, and the proxy to the inference engine.
--
-- The parts and the files that model them:
--   Prelude           shared names, Boolean tests, lists measured by native numbers, texts
--   Errors            utils/errors.py and middleware/error_handler.py
--   Models, Session   models/*.py as rows of tables; database.py: a request runs on a world (the
--                     committed database, its own session, the refresh tokens in Redis, the mail
--                     handed over), commits at its end and rolls back on an error (`with_db`)
--   Ids               `uuid.UUID` on the strings that requests carry
--   RateLimit         services/rate_limit_service.py with the Lua script; times in milliseconds,
--                     tokens are doubles, whose arithmetic is an argument; the bounds are
--                     for rates of whole tokens a second, where it is exact (`IsExact`)
--   Otp               services/otp_service.py; times in microseconds; Races and Guesses
--                     have sessions that run at the same time
--   Auth              services/auth_service.py: passwords and tokens
--   RefreshTokens     services/auth_service.py: the refresh tokens in Redis
--   Orgs, ApiKeys     services/auth_service.py: organizations by name, and API keys
--   CurrentUser       dependencies/auth.py
--   AuthRouter        routers/auth.py, with a child for each group of endpoints
--   Conversations     routers/conversations.py; Commands is a plain description of what the requests
--                     do to a conversation, against which Refinement holds them
--   Admission         services/inference_service.py: the slots of concurrent inferences
--   Inference         services/inference_service.py: the streaming proxy to the engine; Complete is
--                     the proxy that answers in one piece
--   Inference.Listing, Inference.Requests
--                     the models of the engine (also routers/inference.py), and the schema of a
--                     request with what the engine is sent of it (schemas/inference.py)
--   Usage             services/usage_service.py: the rows of the usage log
--   Completions       routers/inference.py: limits, inference and usage log of a request
--   Admin             routers/admin: Users (users.py), Keys (api_keys.py), Orgs (orgs.py) and Reports
--                     (usage.py), with what an administrator can reach
--   Startup           main.py: migrations and seeding at the start, Pull of the models, Drain at
--                     the end
--   Email             services/email_service.py: provider, mail exchanger, retries and fallback
--   Config            config.py: the validators of the settings
--   Middleware        middleware/correlation.py and logging.py, as `create_app` of main.py puts them
--                     around the routes; Starlette is an argument
--   Health            routers/health.py: the probes
--   Metrics           observability/metrics.py: a pass of the collector, with its queries by groups
--   Journeys          the parts together: from a registration to the bill for a completion
--   Tests             concrete services, and an example of each result below that has hypotheses
--
-- A handler is a function from the world to a result and a world, with the steps of the Python
-- function in their order; `do` chains stop at the first error. The readings of the clock, random
-- ids and digits are arguments, one for each reading in the code. bcrypt, python-jose and SHA-256
-- are the fields of `Services`, and `IsSound` says what the code relies on. The loops of the code
-- are over lists or bounded ranges, and are structural; only the loop at the end of the service runs
-- on fuel, and a theorem says how much is enough. What the engine, Redis, the mail servers and the
-- resolver answer are arguments.
--
-- Not modelled: the set-up of structlog, the declarations of the metrics, the creation of the database
-- engine and Alembic's migrations, which are configuration of libraries; the HTML of the mails; and
-- the load tests and the frontend, which are clients.
pub mod Prelude
pub mod RateLimit
pub mod Errors
pub mod Models
pub mod Ids
pub mod Session
pub mod Otp
pub mod Auth
pub mod RefreshTokens
pub mod Orgs
pub mod ApiKeys
pub mod CurrentUser
pub mod AuthRouter
pub mod Conversations
pub mod Admission
pub mod Admin
pub mod Config
pub mod Health
pub mod Inference
pub mod Journeys
pub mod Metrics
pub mod Middleware
pub mod Usage
pub mod Completions
pub mod Email
pub mod Startup
mod Tests
