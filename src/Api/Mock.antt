-- ===== src/Api/Mock.antt =====
-- broker/app/providers/: the provider that a setting chooses, and how the mock provider reads the body
-- of a sign-in.
use smart_classroom.Prelude.{
  Bool, true, false, ◌||◌, ◌&&◌, List, [], ◌∷◌, Option, none, some, String, str_eq, if◌then◌else◌,
  Text, codes, lower, ◌==◌, lstrip_string, rstrip_string,
}
use smart_classroom.Domain.Settings.{Settings, AuthProviderName, mock, cnu_sso, cnu_mail_oauth}
use smart_classroom.Domain.Rows.{Role, user, admin}
use smart_classroom.Api.Login.{UserIdentity}

unfoldable pub starts_with : Text → Text → Bool
starts_with [] s = true
starts_with (p ∷ ps) [] = false
starts_with (p ∷ ps) (c ∷ s) = (p == c) && starts_with ps s

-- `part in text`
unfoldable pub contains : Text → Text → Bool
contains part [] = starts_with part []
contains part (c ∷ s) = starts_with part (c ∷ s) || contains part s

-- The keys of a body with their values, none for a value that is no string.
abbrev pub Fields : Type 0
Fields = List (String × Option String)

-- What `json.loads` makes of the body, an empty one taken as `{}`; an object has each key once.
pub data JsonBody : Type 0 where
  not_json not_object : JsonBody
  object : Fields → JsonBody

pub record CallbackRequest : Type 0 where
  pub content_type : Option Text
  pub body : JsonBody
  pub form : Fields

-- The ValueErrors of `verify_callback`, by their messages.
pub data CallbackFault : Type 0 where
  bad_json no_object missing_fields : CallbackFault
  bad_role : (role : String) → CallbackFault

pub data Verified {ℓ} (A : Type ℓ) : Type ℓ where
  identified : A → Verified A
  refused : CallbackFault → Verified A

-- `data[key]` after the loop, where the last string of a key stays.
unfoldable pub data_get : String → Fields → Option String
data_get key [] = none
data_get key ((k, value) ∷ rest) = elim (data_get key rest) [
  | some v ↦ some v
  | none ↦ if str_eq k key then value else none
]

abbrev pub or_default : String → Option String → String
or_default d none = d
or_default d (some v) = v

-- `data.get(key) or None`
abbrev pub or_none : Option String → Option String
or_none none = none
or_none (some v) = if str_eq v "" then none else some v

-- `data.get("role") or "user"`
abbrev pub or_user : Option String → String
or_user role = or_default "user" (or_none role)

-- The role that a text names, none if it is neither of the two.
unfoldable pub role_of : String → Option Role
role_of v = if str_eq v "user" then some user else if str_eq v "admin" then some admin else none

unfoldable pub identity_of : Fields → Verified UserIdentity
identity_of fields =
    let external_id =
      rstrip_string (lstrip_string (or_default "" (data_get "external_id" fields))) in
    let display_name =
      rstrip_string (lstrip_string (or_default "" (data_get "display_name" fields))) in
    if str_eq external_id "" || str_eq display_name ""
    then refused missing_fields
    else elim (role_of (or_user (data_get "role" fields))) [
      | none ↦ refused (bad_role (or_user (data_get "role" fields)))
      | some role ↦ identified (record {
        external_id = external_id;
        provider = "mock";
        display_name = display_name;
        email = or_none (data_get "email" fields);
        role = role;
      })
    ]

abbrev pub is_json : Option Text → Bool
is_json none = false
is_json (some content_type) = contains (codes "application/json") (lower content_type)

-- `MockAuthProvider.verify_callback`
unfoldable pub verify_callback : CallbackRequest → Verified UserIdentity
verify_callback r =
    if is_json r.content_type
    then elim r.body [
      | not_json ↦ refused bad_json
      | not_object ↦ refused no_object
      | object fields ↦ identity_of fields
    ]
    else identity_of r.form

pub data AuthProvider : Type 0 where
  mock_auth_provider cnu_sso_provider : AuthProvider

-- `name` of the two classes.
abbrev pub name_of : AuthProvider → AuthProviderName
name_of mock_auth_provider = mock
name_of cnu_sso_provider = cnu_sso

-- `_build_provider`, none where it raises: `CnuSsoProvider()` does, and so does an unknown name.
unfoldable pub build_provider : AuthProviderName → Option AuthProvider
build_provider mock = some mock_auth_provider
build_provider cnu_sso = none
build_provider cnu_mail_oauth = none

unfoldable pub get_active_provider : Settings → Option AuthProvider
get_active_provider settings = build_provider settings.auth_provider
