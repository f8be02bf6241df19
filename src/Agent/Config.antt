-- ===== src/Agent/Config.antt =====
-- agent/smartclassroom_agent/config.py: the bounds of the agent's settings, and the URLs that client.py
-- and collectors/rtt.py make of the broker's. Seconds are in milliseconds.
use smart_classroom.Prelude.{
  ℕ, ◌≡◌, refl, Bool, ◌&&◌, ◌||◌, [], ◌∷◌, ◌++◌, Option, none, some, leb, ◌==◌, if◌then◌else◌,
  String, Text, codes, text_eq, length, is_empty_text, Bool-cases, inl, inr,
}

-- A value of the file: its key is not there, the value is not one that pydantic takes for the type of
-- the field, such as null or a list, or it is taken, after pydantic's coercion.
pub data Value (A : Type 0) : Type 0 where
  absent refused : Value A
  given : A → Value A

-- The values of the file for the fields; other keys are ignored.
pub record RawConfig : Type 0 where
  pub broker_url : Value Text
  pub host_id : Value ℕ
  pub agent_token : Value String
  pub interval_seconds : Value ℕ
  pub log_level : Value Text
  pub sunshine_serverinfo_url : Value Text
  pub sunshine_query_timeout_seconds : Value ℕ

pub record AgentConfig : Type 0 where
  pub broker_url : Text
  pub host_id : ℕ
  pub agent_token : String
  pub interval_seconds : ℕ
  pub log_level : Text
  pub sunshine_serverinfo_url : Text
  pub sunshine_query_timeout_seconds : ℕ

abbrev pub within : ℕ → ℕ → ℕ → Bool
within low high x = leb low x && leb x high

-- The names of `log_level`.
unfoldable pub is_log_level : Text → Bool
is_log_level s =
    text_eq s (codes "DEBUG")
    || (text_eq s (codes "INFO") || (text_eq s (codes "WARNING") || text_eq s (codes "ERROR")))

abbrev pub passed : {A : Type 0} → (A → Bool) → A → Option A
passed p a = if p a then some a else none

-- A field without a default, and one with: the value that passes, none for a ValidationError. A
-- default is not validated.
abbrev pub required : {A : Type 0} → (A → Option A) → Value A → Option A
required check absent = none
required check refused = none
required check (given a) = check a

abbrev pub defaulted : {A : Type 0} → (A → Option A) → A → Value A → Option A
defaulted check d absent = some d
defaulted check d refused = none
defaulted check d (given a) = check a

abbrev pub default_serverinfo_url : Text
default_serverinfo_url = codes "http://127.0.0.1:47989/serverinfo"

infixl 5 ◌>>=◌
abbrev pub ◌>>=◌ : {A B : Type 0} → Option A → (A → Option B) → Option B
◌>>=◌ o f = elim o [ none ↦ none | some a ↦ f a ]

-- `http_url` is what pydantic's HttpUrl makes of a text: the URL in its normal form, none for a text
-- that is no HTTP URL.
module _ (http_url : Text → Option Text) where
  -- `AgentConfig.model_validate`, none for a ValidationError.
  unfoldable pub validate_config : RawConfig → Option AgentConfig
  validate_config raw = do
    broker_url ← required http_url raw.broker_url
    host_id ← required (passed (leb 1)) raw.host_id
    agent_token ← required (passed (λ t. within 16 128 (length (codes t)))) raw.agent_token
    interval ← defaulted (passed (within 1_000 600_000)) 30_000 raw.interval_seconds
    level ← defaulted (passed is_log_level) (codes "INFO") raw.log_level
    url ← defaulted http_url default_serverinfo_url raw.sunshine_serverinfo_url
    timeout ← defaulted (passed (within 500 30_000)) 3_000 raw.sunshine_query_timeout_seconds
    some (record {
      broker_url = broker_url;
      host_id = host_id;
      agent_token = agent_token;
      interval_seconds = interval;
      log_level = level;
      sunshine_serverinfo_url = url;
      sunshine_query_timeout_seconds = timeout;
    })

-- `rstrip("/")`
unfoldable pub rstrip_slash : Text → Text
rstrip_slash [] = []
rstrip_slash (c ∷ s) =
    let rest = rstrip_slash s in if (c == b'/') && is_empty_text rest then [] else c ∷ rest

unfoldable pub broker_url_str : AgentConfig → Text
broker_url_str cfg = rstrip_slash cfg.broker_url

-- The URL that `measure_rtt` asks.
unfoldable pub healthz_url : Text → Text
healthz_url broker_url = rstrip_slash broker_url ++ codes "/healthz"

-- Stripping slashes once is enough: the broker's URL is stripped by the configuration and again by
-- the client and the measurement, which changes nothing.
pub rstrip_slash_idempotent : (s : Text) → rstrip_slash (rstrip_slash s) ≡ rstrip_slash s
unfolding rstrip_slash
rstrip_slash_idempotent [] = refl
rstrip_slash_idempotent (c ∷ s) =
    elim (Bool-cases ((c == b'/') && is_empty_text (rstrip_slash s))) [
      | inl e ↦ rw (e, if◌then◌else◌) refl
      | inr e ↦ rw (e, if◌then◌else◌, rstrip_slash_idempotent s, e, if◌then◌else◌) refl
    ]
