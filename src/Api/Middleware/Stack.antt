-- ===== src/Api/Middleware/Stack.antt =====
-- The stack of `create_app`: what a request leaves in the access log and in the contextvars, and
-- what its answer carries.
use smart_classroom.Prelude.{
  ℕ, ◌≡◌, refl, sym, ap, ◌∙◌, append-nil, append_assoc, List, [], ◌∷◌, ◌++◌, map, Option, none,
  some, String,
}
use smart_classroom.Domain.Rows.{User}
use smart_classroom.Domain.Db.{Db}
use smart_classroom.Api.SignIn.{session_user}
use smart_classroom.Api.Pages.{request_id}
use smart_classroom.Api.Middleware.{
  LogContext, Request, Outcome, Entry, Process, App, stamp, request_id_dispatch, call_as,
  auth_session_dispatch, entry_of, access_log_dispatch, add_middleware, build_middleware_stack,
  Readings, middlewares, handle_request,
}

-- No contextvar is bound.
abbrev pub no_context : LogContext
no_context = record { request_id = none; user_id = none; auth_provider = none }

abbrev pub context_of : String → Option User → LogContext
context_of rid none = record no_context { request_id = some rid }
context_of rid (some user) = record {
  request_id = some rid;
  user_id = some user.id;
  auth_provider = some user.provider;
}

-- An application that answers by the request and the context, and leaves both the context and the
-- access log alone.
abbrev pub AnswersBy : {B : Type 0} → (Request → LogContext → Outcome B) → App B → Type 0
AnswersBy answer app = (r : Request) (p : Process) → app r p ≡ (answer r p.context, p)

-- One request with the readings and the database that it meets.
pub record Visit : Type 0 where
  pub request : Request
  pub reading : Readings
  pub db : Db

-- The request's id: its header, or a fresh one if that is absent or empty.
abbrev pub id_of : Visit → String
id_of v = request_id v.reading.fresh v.request.request_id_header

-- The user whom the request's cookie signs in.
abbrev pub user_of : (String → String) → Visit → Option User
user_of digest v = session_user digest v.reading.now v.request.session_cookie v.db

-- The request as the application sees it.
abbrev pub seen : (String → String) → Visit → Request
seen digest v = record (v.request) { user = user_of digest v }

-- The context in which the application answers and the access log is written.
abbrev pub context_in : (String → String) → Visit → LogContext
context_in digest v = context_of (id_of v) (user_of digest v)

module _ {B : Type 0} (digest : String → String) (answer : Request → LogContext → Outcome B) where
  -- What the application inside answers to the request.
  abbrev pub answer_of : Visit → Outcome B
  answer_of v = answer (seen digest v) (context_in digest v)

  -- The line that the request leaves in the access log.
  abbrev pub line_of : Visit → Entry
  line_of v = entry_of (seen digest v) v.reading.duration_ms (answer_of v) (context_in digest v)

-- A process with no contextvar bound.
abbrev pub idle_process : List Entry → Process
idle_process log = record { context = no_context; access_log = log }

module _ (digest : String → String) {B : Type 0} (cors : App B → App B) (routes : App B) where
  abbrev pub serve_one : Visit → Process → Outcome B × Process
  serve_one v p = handle_request digest v.reading v.db cors routes v.request p

module _ (digest : String → String) {B : Type 0} (cors : App B → App B) (routes : App B)
    (answer : Request → LogContext → Outcome B) (inside : AnswersBy answer (cors routes)) where
  access_log_lem :
      (n : ℕ) (r : Request) (c : LogContext) (log : List Entry)
      → access_log_dispatch n (cors routes) r (record { context = c; access_log = log })
        ≡ (answer r c, record { context = c; access_log = log ++ entry_of r n (answer r c) c ∷ [] })
  unfolding access_log_dispatch
  access_log_lem n r c log = rw (inside r (record { context = c; access_log = log })) refl

  call_as_lem :
      (n : ℕ) (rid : String) (who : Option User) (r : Request) (log : List Entry)
      → call_as who
          (access_log_dispatch n (cors routes))
          r
          (record { context = record no_context { request_id = some rid }; access_log = log })
        ≡ (
          answer (record r { user = who }) (context_of rid who),
          record {
            context = record no_context { request_id = some rid };
            access_log =
                log
                ++ entry_of
                    (record r { user = who })
                    n
                    (answer (record r { user = who }) (context_of rid who))
                    (context_of rid who)
                  ∷ [];
          },
        )
  unfolding call_as
  call_as_lem n rid none r log = rw (access_log_lem n _ _ log) refl
  call_as_lem n rid (some user) r log = rw (access_log_lem n _ _ log) refl

  -- From a process with no contextvar bound, a request whose readings and database are those of the
  -- visit is answered as the application inside answers it, under the request's id; one line more is
  -- in the access log, and no contextvar is bound.
  pub handle_request-answer :
      (v : Visit) (log : List Entry)
      → serve_one digest cors routes v (idle_process log) ≡ (
        stamp (id_of v) (answer_of digest answer v),
        idle_process (log ++ line_of digest answer v ∷ []),
      )
  unfolding handle_request middlewares add_middleware build_middleware_stack request_id_dispatch
      auth_session_dispatch
  handle_request-answer v log =
      rw (call_as_lem v.reading.duration_ms (id_of v) (user_of digest v) v.request log) refl

-- The routes may differ from visit to visit, by what they find in the database then.
module _ (digest : String → String) {B : Type 0} (cors : App B → App B)
    (routes : Visit → App B) where
  -- Several requests, one after another, in one context.
  abbrev pub serve : List Visit → Process → Process
  serve [] p = p
  serve (v ∷ vs) p = serve vs (serve_one digest cors (routes v) v p).1

  -- Requests that are served one after another from a process with no contextvar bound leave none
  -- bound, and one line each in the access log, in their order, with the id and the user of that
  -- request and its outcome, whatever the requests before it were. It is assumed of the routes
  -- behind CORS that in each visit they answer by some function of the request and the context, and
  -- that they bind no contextvar and write no line of the access log themselves.
  pub handle_request-lines :
      (answer : Visit → Request → LogContext → Outcome B)
      → ((v : Visit) → AnswersBy (answer v) (cors (routes v)))
      → (vs : List Visit) (log : List Entry)
      → serve vs (idle_process log)
        ≡ idle_process (log ++ map (λ v. line_of digest (answer v) v) vs)
  handle_request-lines answer inside [] log = ap idle_process (sym (append-nil log))
  handle_request-lines answer inside (v ∷ vs) log =
      rw (handle_request-answer digest cors (routes v) (answer v) (inside v) v log) (
        handle_request-lines answer inside vs (log ++ line_of digest (answer v) v ∷ [])
        ∙ ap idle_process (append_assoc log _ _))
