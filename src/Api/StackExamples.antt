-- ===== src/Api/StackExamples.antt =====
-- The theorems on the middlewares and on the bodies of errors at work: a student's request, and one
-- without a cookie, to an application that knows one route.
use smart_classroom.Prelude.{
  ◌≡◌, ◌≢◌, refl, false, [], ◌∷◌, none, some, arith, String, map, str_eq, eq_iff, Option,
  if◌then◌else◌, List,
}
use smart_classroom.Domain.Rows.{Token, session}
use smart_classroom.Domain.Db.{Db, http_error}
use smart_classroom.Samples.{at, tagged, ticket, classroom}
use smart_classroom.Api.Errors.{
  get, fields, ErrorResponse, Exception, http_exception, http_body, handle_error,
}
use smart_classroom.Api.Errors.Bodies.{field, names, http_body-fields}
use smart_classroom.Api.Middleware.{Request, LogContext, Outcome, responded, raised, App}
use smart_classroom.Api.Middleware.Stack.{
  Visit, AnswersBy, line_of, idle_process, serve, handle_request-lines,
}

abbrev cookie : Token
cookie = record ticket { jti = "cookie"; host_id = none; reservation_id = none; purpose = session }

abbrev signed_in_db : Db
signed_in_db = record classroom { tokens = cookie ∷ []; next_token_id = 2 }

abbrev visit : Option String → Option String → Visit
visit rid raw = record {
  request = record {
    method = "GET";
    path = "/api/v1/auth/me";
    request_id_header = rid;
    session_cookie = raw;
    client_ip = some "10.0.0.9";
    user = none;
  };
  reading = record { fresh = "f00d"; now = at 21; duration_ms = 4 };
  db = signed_in_db;
}

abbrev missing : Exception String
missing = http_exception 404 (fields (("error", "host_not_found") ∷ ("host_id", "7") ∷ []))

abbrev same : String → String
same s = s

-- One path fails inside; every other answers as a missing host.
abbrev answer : Request → LogContext → Outcome (ErrorResponse String)
answer r c =
    if str_eq r.path "/broken"
    then raised (http_error 500)
    else responded (record {
      status_code = (handle_error same r.request_id_header missing).status_code;
      request_id_header = none;
      body = (handle_error same r.request_id_header missing).content;
    })

abbrev routes : App (ErrorResponse String)
routes r p = (answer r p.context, p)

abbrev no_cors : App (ErrorResponse String) → App (ErrorResponse String)
no_cors app = app

inside : AnswersBy answer (no_cors routes)
inside r p = refl

abbrev visits : List Visit
visits = visit (some "r1") (some "cookie") ∷ visit none none ∷ []

handle_request-lines_example :
    serve tagged no_cors (λ v. routes) visits (idle_process [])
    ≡ idle_process (map (λ v. line_of tagged answer v) visits)
handle_request-lines_example =
    handle_request-lines tagged no_cors (λ v. routes) (λ v. answer) (λ v. inside) visits []

abbrev details : List (String × String)
details = ("error", "host_not_found") ∷ ("host_id", "7") ∷ []

abbrev host_key : String
host_key = "host_id"

distinct : (k : String) → str_eq host_key k ≡ false → host_key ≢ k
distinct k h e = absurd (ground (arith, h, eq_iff host_key k, e))

http_body-fields_example :
    (field host_key (http_body same none (fields details)).detail ≡ get host_key details)
    × (field names.0 (http_body same none (fields details)).detail ≡ none)
    × (field names.1 (http_body same none (fields details)).detail ≡ none)
http_body-fields_example =
    http_body-fields same none details host_key (distinct names.0 refl) (distinct names.1 refl)
