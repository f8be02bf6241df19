-- ===== src/Pairing/Push.antt =====
-- `push_pin` of broker/app/services/pairing_service.py. What Sunshine answers to each POST comes
-- from outside: `replies n` is the answer to attempt n. What the function does besides its outcome is
-- in Relay.
use smart_classroom.Prelude.{
  ℕ, zero, suc, ◌+◌, Bool, true, ◌&&◌, ◌||◌, Option, none, some, ◌==◌, ltb, leb, max, String,
  str_eq, if◌then◌else◌,
}
use smart_classroom.Domain.Settings.{Settings}
use smart_classroom.Domain.Rows.{Host}

-- `httpx.TransportError`, or a response: its status code, and `_sunshine_accepted`, whether its
-- body is a JSON object with `"status": true`.
pub data Reply : Type 0 where
  transport_error : Reply
  response : (status_code : ℕ) (sunshine_accepted : Bool) → Reply

pub data Reason : Type 0 where
  missing_ip_or_token unreachable sunshine_unauthorized : Reason
  sunshine_rejected sunshine_server_error : Reason

-- `PairingResult`, or one of the three errors with its reason and attempts.
pub data Outcome : Type 0 where
  paired : (attempts : ℕ) → Outcome
  host_not_pairable : Outcome
  pairing_unreachable : Reason → (attempts : ℕ) → Outcome
  pairing_rejected : Reason → (attempts : ℕ) → Outcome

-- What one attempt leads to: success, an error at once, or another attempt.
pub data Verdict : Type 0 where
  accepted : Verdict
  refused : Reason → Verdict
  retry : Reason → Verdict

abbrev pub is_transient_status : ℕ → Bool
is_transient_status status_code = leb 500 status_code

unfoldable pub judge : Reply → Verdict
judge transport_error = retry unreachable
judge (response status_code sunshine_accepted) =
    if status_code == 401
    then refused sunshine_unauthorized
    else if leb 200 status_code && ltb status_code 300
    then (if sunshine_accepted then accepted else retry sunshine_rejected)
    else if is_transient_status status_code
    then retry sunshine_server_error
    else refused sunshine_rejected

-- The errors after the last attempt.
unfoldable pub exhausted : Reason → ℕ → Outcome
exhausted sunshine_rejected max_attempts = pairing_rejected sunshine_rejected max_attempts
exhausted missing_ip_or_token max_attempts = pairing_unreachable missing_ip_or_token max_attempts
exhausted unreachable max_attempts = pairing_unreachable unreachable max_attempts
exhausted sunshine_unauthorized max_attempts =
    pairing_unreachable sunshine_unauthorized max_attempts
exhausted sunshine_server_error max_attempts =
    pairing_unreachable sunshine_server_error max_attempts

-- The loop `for attempt in range(1, max_attempts + 1)`, by the rounds that are left.
unfoldable pub push_rounds : (ℕ → Reply) → ℕ → ℕ → ℕ → Reason → Outcome
push_rounds replies max_attempts zero attempt last_reason = exhausted last_reason max_attempts
push_rounds replies max_attempts (suc rounds) attempt last_reason = elim (judge (replies attempt)) [
  | accepted ↦ paired attempt
  | refused reason ↦ pairing_rejected reason attempt
  | retry reason ↦ push_rounds replies max_attempts rounds (attempt + 1) reason
]

-- `not x` for a string or None.
abbrev pub is_blank : Option String → Bool
is_blank none = true
is_blank (some s) = str_eq s ""

abbrev pub attempts_for : Settings → ℕ
attempts_for settings = max 1 settings.sunshine_pair_max_attempts

unfoldable pub push_pin : Settings → Host → (ℕ → Reply) → Outcome
push_pin settings host replies =
    if is_blank host.ip_address || is_blank host.sunshine_broker_token
    then host_not_pairable
    else push_rounds replies (attempts_for settings) (attempts_for settings) 1 unreachable
