-- ===== src/Api/Auth.antt =====
-- broker/app/api/deps.py and the production guards of broker/app/main.py: who may call what.
use Prim.Native.Char.{code}
use Prim.Native.String.{String}
use smart_classroom.Prelude.{
  Text, codes, [], ◌∷◌, ◌==◌, lower_code, lstrip_string, rstrip_string, ℕ, Bool, true, false, ◌||◌,
  not, Option, none, some, str_eq, if◌then◌else◌,
}
use smart_classroom.Domain.Settings.{
  Settings, AppEnv, development, staging, production, test, AuthProviderName, mock, cnu_sso,
  cnu_mail_oauth,
}
use smart_classroom.Domain.Rows.{User, Host, Token, is_admin}
use smart_classroom.Domain.Db.{Db, get_host}
use smart_classroom.Tokens.Agent.{verify_agent_token}

pub data Denied : Type 0 where
  unauthenticated forbidden invalid_internal_token : Denied
  missing_bearer invalid_agent_token host_missing : Denied

pub data Access {ℓ} (A : Type ℓ) : Type ℓ where
  granted : A → Access A
  denied : Denied → Access A

-- `get_current_user`: the user that the session middleware found, if any.
unfoldable pub get_current_user : Option User → Access User
get_current_user none = denied unauthenticated
get_current_user (some user) = granted user

-- `require_admin`
unfoldable pub require_admin : Option User → Access User
require_admin none = denied unauthenticated
require_admin (some user) = if is_admin user.role then granted user else denied forbidden

abbrev pub is_empty : Option String → Bool
is_empty none = true
is_empty (some s) = str_eq s ""

-- `require_internal_token`: `provided` is the X-Internal-Token header, "" if it is absent.
unfoldable pub require_internal_token : Settings → String → Access (Unit {0})
require_internal_token settings provided = elim settings.internal_api_token [
  | none ↦ denied invalid_internal_token
  | some expected ↦
      if str_eq expected "" || (str_eq provided "" || not (str_eq provided expected))
      then denied invalid_internal_token
      else granted tt
]

-- The text behind a prefix in small letters, if the text begins with it in letters of any case.
unfoldable pub after_prefix : Text → String → Option String
after_prefix [] s = some s
after_prefix (p ∷ prefix) String.[] = none
after_prefix (p ∷ prefix) (String.◌∷◌ c s) =
    let rest = after_prefix prefix s in if lower_code (code c) == p then rest else none

-- `auth_header[7:].strip()` for a header that begins with "bearer "; "" is an absent header.
unfoldable pub header_token : String → Option String
header_token auth_header = elim (after_prefix (codes "bearer ") auth_header) [
  | none ↦ none
  | some rest ↦ some (rstrip_string (lstrip_string rest))
]

-- `get_agent_host`, from what the Authorization header carries: none if it does not begin with
-- "bearer ", else the stripped rest.
unfoldable pub get_agent_host : (String → String) → ℕ → Option String → Db → Access (Host × Token)
get_agent_host digest now none db = denied missing_bearer
get_agent_host digest now (some raw_token) db = elim (verify_agent_token digest now raw_token db) [
  | none ↦ denied invalid_agent_token
  | some token ↦ elim token.host_id [
    | none ↦ denied host_missing
    | some host_id ↦ elim (get_host host_id db) [
      | none ↦ denied host_missing
      | some host ↦ granted (host, token)
    ]
  ]
]

abbrev pub is_production : AppEnv → Bool
is_production production = true
is_production development = false
is_production staging = false
is_production test = false

abbrev pub is_mock : AuthProviderName → Bool
is_mock mock = true
is_mock cnu_sso = false
is_mock cnu_mail_oauth = false

abbrev pub is_placeholder : String → Bool
is_placeholder s = str_eq s "change-me" || str_eq s "dev-secret"

pub data BootFault : Type 0 where
  mock_provider weak_session_secret insecure_cookie weak_internal_token : BootFault

abbrev pub weak_token : Option String → Bool
weak_token none = true
weak_token (some s) = str_eq s "" || is_placeholder s

-- `_enforce_production_guards`: the first guard that fails, if any.
unfoldable pub enforce_production_guards : Settings → Option BootFault
enforce_production_guards settings =
    if is_production settings.app_env
    then if is_mock settings.auth_provider
      then some mock_provider
      else if is_placeholder settings.session_secret || str_eq settings.session_secret ""
      then some weak_session_secret
      else if not settings.session_cookie_secure
      then some insecure_cookie
      else if weak_token settings.internal_api_token
      then some weak_internal_token
      else none
    else none
