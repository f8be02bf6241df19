-- ===== src/Pairing/Relay.antt =====
-- `push_pin` of broker/app/services/pairing_service.py with what it does besides its outcome: the
-- client that it opens and closes, the requests that it sends, its log lines and its sleeps, in
-- their order. Seconds are in milliseconds, and `str` is what a format string makes of an integer.
use smart_classroom.Prelude.{
  ℕ, zero, suc, ◌+◌, ◌-◌, ◌*◌, ◌^◌, Bool, true, false, ◌&&◌, ◌||◌, List, [], ◌∷◌, ◌++◌, Option,
  none, some, ◌==◌, ltb, leb, String, Text, codes, if◌then◌else◌,
}
use smart_classroom.Domain.Settings.{Settings}
use smart_classroom.Domain.Rows.{Host}
use smart_classroom.Pairing.Push.{
  Reply, transport_error, response, Reason, unreachable, Outcome, paired, host_not_pairable,
  pairing_rejected, accepted, refused, retry, judge, exhausted, is_transient_status, is_blank,
  attempts_for,
}
pub mod Effects
pub mod Backoff
pub mod Secret

-- The POST to `/api/pin`.
pub record PinRequest : Type 0 where
  pub url : Text
  pub authorization : Text
  pub pin : Text
  pub name : Text

-- The two lines "pairing.attempt_failed".
pub data Warning : Type 0 where
  no_transport : (host_id attempt : ℕ) → Warning
  bad_status : (host_id attempt status_code : ℕ) → Warning

pub data Effect : Type 0 where
  opened : (verify : Bool) (timeout : ℕ) → Effect
  posted : PinRequest → Effect
  warned : Warning → Effect
  slept : ℕ → Effect
  closed : Effect

-- What an attempt logs.
unfoldable pub warnings_of : ℕ → ℕ → Reply → List Effect
warnings_of host_id attempt transport_error = warned (no_transport host_id attempt) ∷ []
warnings_of host_id attempt (response status_code sunshine_accepted) =
    if status_code == 401
    then []
    else if leb 200 status_code && ltb status_code 300
    then []
    else if is_transient_status status_code
    then warned (bad_status host_id attempt status_code) ∷ []
    else []

-- `if attempt < max_attempts: await asyncio.sleep(base * (2 ** (attempt - 1)))`
unfoldable pub pause : ℕ → ℕ → ℕ → List Effect
pause base max_attempts attempt =
    if ltb attempt max_attempts then slept (base * 2 ^ (attempt - 1)) ∷ [] else []

-- The loop, by the rounds that are left.
unfoldable pub relay_rounds :
    PinRequest → ℕ → ℕ → (ℕ → Reply) → ℕ → ℕ → ℕ → Reason → Outcome × List Effect
relay_rounds request host_id base replies max_attempts zero attempt last_reason =
    (exhausted last_reason max_attempts, [])
relay_rounds request host_id base replies max_attempts (suc rounds) attempt last_reason =
    let tried = posted request ∷ warnings_of host_id attempt (replies attempt) in
    elim (judge (replies attempt)) [
      | accepted ↦ (paired attempt, tried)
      | refused reason ↦ (pairing_rejected reason attempt, tried)
      | retry reason ↦
          let (outcome, after) =
            relay_rounds request host_id base replies max_attempts rounds (suc attempt) reason in
          (outcome, tried ++ (pause base max_attempts attempt ++ after))
    ]

-- The text of a value that is not None.
abbrev pub text_of : Option String → Text
text_of none = []
text_of (some s) = codes s

unfoldable pub pin_request : (ℕ → Text) → Settings → Host → Text → ℕ → PinRequest
pin_request str settings host pin reservation_id = record {
  url =
      codes "https://"
      ++ (text_of host.ip_address
          ++ (codes ":" ++ (str settings.sunshine_config_port ++ codes "/api/pin")));
  authorization = codes "Bearer " ++ text_of host.sunshine_broker_token;
  pin = pin;
  name = codes "sc-res-" ++ str reservation_id;
}

-- The client is opened and closed here unless it is given; it is closed on every way out.
unfoldable pub with_client : Bool → Settings → List Effect → List Effect
with_client true settings effects = effects
with_client false settings effects =
    opened settings.sunshine_tls_verify settings.sunshine_request_timeout_seconds
    ∷ (effects ++ closed ∷ [])

-- `has_client` tells whether `client` is given.
unfoldable pub relay_pin :
    (ℕ → Text) → Settings → Host → Text → ℕ → Bool → (ℕ → Reply) → Outcome × List Effect
relay_pin str settings host pin reservation_id has_client replies =
    if is_blank host.ip_address || is_blank host.sunshine_broker_token
    then (host_not_pairable, [])
    else let (outcome, effects) =
        relay_rounds (pin_request str settings host pin reservation_id) host.id
          settings.sunshine_pair_backoff_base_seconds replies (attempts_for settings)
          (attempts_for settings) 1 unreachable in
      (outcome, with_client has_client settings effects)
