-- ===== src/Api/Middleware.antt =====
-- broker/app/core/middleware.py, and the stack that `create_app` of broker/app/main.py builds of it.
-- An application takes a request, and what the process keeps of it: the contextvars of structlog
-- and the entries of the access log. It answers or raises. Each middleware is a function of the
-- application inside it, which `call_next` runs; the CORS middleware and the routes are parameters.
pub mod Stack
use smart_classroom.Prelude.{
  ℕ, Bool, true, false, List, [], ◌∷◌, ◌++◌, Option, none, some, String, str_eq, if◌then◌else◌,
}
use smart_classroom.Domain.Rows.{User}
use smart_classroom.Domain.Db.{Db, Error}
use smart_classroom.Api.SignIn.{session_user}
use smart_classroom.Api.Pages.{request_id}

-- The contextvars that the broker binds; an unbound one is none.
pub record LogContext : Type 0 where
  pub request_id : Option String
  pub user_id : Option ℕ
  pub auth_provider : Option String

-- Of a request what the middlewares read, and `request.state.user`. A header or a cookie that is
-- absent is none.
pub record Request : Type 0 where
  pub method : String
  pub path : String
  pub request_id_header : Option String
  pub session_cookie : Option String
  pub client_ip : Option String
  pub user : Option User

-- `request_id_header` is the response's X-Request-ID; what a body is depends on the routes.
pub record Response (B : Type 0) : Type 0 where
  pub status_code : ℕ
  pub request_id_header : Option String
  pub body : B

pub data Outcome (B : Type 0) : Type 0 where
  responded : Response B → Outcome B
  raised : Error → Outcome B

-- A line of the access log, into which `merge_contextvars` puts the context.
pub data Entry : Type 0 where
  http_request :
      (context : LogContext) (method path : String) (status_code duration_ms : ℕ)
      (client_ip : Option String)
      → Entry
  http_request_error : (context : LogContext) (method path : String) (duration_ms : ℕ) → Entry

pub record Process : Type 0 where
  pub context : LogContext
  pub access_log : List Entry

abbrev pub App : Type 0 → Type 0
App B = Request → Process → Outcome B × Process

-- `bind_contextvars(request_id=...)` and `unbind_contextvars("request_id")`.
abbrev pub set_request_id : Option String → Process → Process
set_request_id rid p = record p { context = record (p.context) { request_id = rid } }

-- The same for user_id and auth_provider.
abbrev pub bind_user : User → Process → Process
bind_user user p = record p {
  context = record (p.context) { user_id = some user.id; auth_provider = some user.provider };
}

abbrev pub unbind_user : Process → Process
unbind_user p = record p { context = record (p.context) { user_id = none; auth_provider = none } }

-- The readings that a request's way through the stack takes from outside.
pub record Readings : Type 0 where
  pub fresh : String
  pub now : ℕ
  pub duration_ms : ℕ

module _ {B : Type 0} where
  -- `response.headers[REQUEST_ID_HEADER] = rid`; an exception goes on as it is.
  abbrev pub stamp : String → Outcome B → Outcome B
  stamp rid (responded response) = responded (record response { request_id_header = some rid })
  stamp rid (raised e) = raised e

  -- `RequestIdMiddleware.dispatch`, where `fresh` is `uuid.uuid4().hex`.
  unfoldable pub request_id_dispatch : String → App B → App B
  request_id_dispatch fresh call_next request p =
      let rid = request_id fresh request.request_id_header in
      let (outcome, p') = call_next request (set_request_id (some rid) p) in
      (stamp rid outcome, set_request_id none p')

  -- The rest of `AuthSessionMiddleware.dispatch`, for the user that was found.
  unfoldable pub call_as : Option User → App B → App B
  call_as none call_next request p = call_next (record request { user = none }) p
  call_as (some user) call_next request p =
      let (outcome, p') = call_next (record request { user = some user }) (bind_user user p) in
      (outcome, unbind_user p')

  -- `AuthSessionMiddleware.dispatch`, with the clock and the database as `verify_session` reads them.
  unfoldable pub auth_session_dispatch : (String → String) → ℕ → Db → App B → App B
  auth_session_dispatch digest now db call_next request p =
      call_as (session_user digest now request.session_cookie db) call_next request p

  abbrev pub entry_of : Request → ℕ → Outcome B → LogContext → Entry
  entry_of request duration_ms (responded response) context =
      http_request context request.method request.path response.status_code duration_ms
        request.client_ip
  entry_of request duration_ms (raised e) context =
      http_request_error context request.method request.path duration_ms

  -- `AccessLogMiddleware.dispatch`; `duration_ms` is what the two readings of the clock come to.
  unfoldable pub access_log_dispatch : ℕ → App B → App B
  access_log_dispatch duration_ms call_next request p =
      let (outcome, p') = call_next request p in
      (
        outcome,
        record p' {
          access_log = p'.access_log ++ entry_of request duration_ms outcome p'.context ∷ [];
        },
      )

  -- `app.add_middleware`: the last that is added is the outermost.
  unfoldable pub add_middleware : (App B → App B) → List (App B → App B) → List (App B → App B)
  add_middleware m stack = m ∷ stack

  -- The application with its middlewares around it, the first of the list outermost.
  unfoldable pub build_middleware_stack : List (App B → App B) → App B → App B
  build_middleware_stack [] app = app
  build_middleware_stack (m ∷ stack) app = m (build_middleware_stack stack app)

  -- The middlewares that `create_app` adds, in its order.
  unfoldable pub middlewares :
      (String → String) → Readings → Db → (App B → App B) → List (App B → App B)
  middlewares digest reading db cors = add_middleware (request_id_dispatch reading.fresh) (
      add_middleware (auth_session_dispatch digest reading.now db)
        (add_middleware (access_log_dispatch reading.duration_ms) (add_middleware cors [])))

  -- A request to the application that `create_app` returns.
  unfoldable pub handle_request :
      (String → String) → Readings → Db → (App B → App B) → App B → App B
  handle_request digest reading db cors routes =
      build_middleware_stack (middlewares digest reading db cors) routes
