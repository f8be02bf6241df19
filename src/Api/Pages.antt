-- ===== src/Api/Pages.antt =====
-- What the browser gets from broker/app/api/v1/auth.py: the login form, the answer to a sign-in with
-- its cookie, and `me`; and the request id of broker/app/core/middleware.py.
use smart_classroom.Prelude.{
  ℕ, ◌≡◌, Bool, true, false, Option, none, some, arith, String, str_eq, if◌then◌else◌, Text, codes,
}
use smart_classroom.Domain.Settings.{Settings}
use smart_classroom.Domain.Rows.{User, Role, Token}
use smart_classroom.Domain.Db.{M, pure, ◌>>◌, raise_if, http_error}
use smart_classroom.Api.Auth.{
  Access, granted, denied, get_current_user, is_production, enforce_production_guards,
}
use smart_classroom.Api.Mock.{contains}

-- The attributes that the settings choose: name, SameSite and domain are `CookieSettings`.
pub record CookieSettings : Type 0 where
  pub session_cookie_name : String
  pub session_cookie_samesite : String
  pub cookie_domain : Option String

pub record Cookie : Type 0 where
  pub key : String
  pub value : String
  pub max_age : ℕ
  pub httponly : Bool
  pub secure : Bool
  pub samesite : String
  pub domain : Option String
  pub path : String

-- `_set_session_cookie`
unfoldable pub set_session_cookie : String → Settings → CookieSettings → Cookie
set_session_cookie raw_cookie settings c = record {
  key = c.session_cookie_name;
  value = raw_cookie;
  max_age = settings.session_ttl_seconds;
  httponly = true;
  secure = settings.session_cookie_secure;
  samesite = c.session_cookie_samesite;
  domain = c.cookie_domain;
  path = "/";
}

-- `_wants_html` of auth.py, from the Accept header.
unfoldable pub accepts_html : Option Text → Bool
accepts_html none = false
accepts_html (some accept) = contains (codes "text/html") accept

pub record UserBody : Type 0 where
  pub external_id : String
  pub display_name : String
  pub email : Option String
  pub role : Role
  pub provider : String

abbrev pub user_body : User → UserBody
user_body u = record {
  external_id = u.external_id;
  display_name = u.display_name;
  email = u.email;
  role = u.role;
  provider = u.provider;
}

pub data SignInBody : Type 0 where
  home_page : SignInBody
  user_json : UserBody → (expires_at : ℕ) → SignInBody

-- The response of `mock_callback` after the commit: its body and its cookie.
unfoldable pub sign_in_response :
    Settings → CookieSettings → Option Text → String → User → Token → SignInBody × Cookie
sign_in_response settings c accept raw_cookie user token = (
  (if accepts_html accept then home_page else user_json (user_body user) token.expires_at),
  set_session_cookie raw_cookie settings c,
)

-- `mock_login_form`: the form, or 404 in production.
unfoldable pub mock_login_form : Settings → M (Unit {0})
mock_login_form settings = do raise_if (is_production settings.app_env) (http_error 404); pure tt

-- `me`: the id and the rest of what is known of the user.
unfoldable pub me : Option User → Access (ℕ × UserBody)
me user = elim (get_current_user user) [
  | denied reason ↦ denied reason
  | granted u ↦ granted (u.id, user_body u)
]

-- `RequestIdMiddleware`: the id of the request, which is also set on the response; `new_id` is
-- `uuid.uuid4().hex`.
unfoldable pub request_id : String → Option String → String
request_id new_id none = new_id
request_id new_id (some rid) = if str_eq rid "" then new_id else rid

-- In production, a broker that boots sends its session cookie over secure connections only, and to no
-- script.
set_session_cookie_secure :
    (settings : Settings) (c : CookieSettings) (raw : String)
    → is_production settings.app_env ≡ true
    → enforce_production_guards settings ≡ none
    → ((set_session_cookie raw settings c).secure ≡ true)
      × ((set_session_cookie raw settings c).httponly ≡ true)
unfolding enforce_production_guards set_session_cookie
set_session_cookie_secure settings c raw e h = ground (arith, e)
