-- ===== src/Pairing/Relay/Secret.antt =====
-- The detailed run against the plain one, and the broker's token for Sunshine, which is in the
-- request and nowhere else.
use smart_classroom.Prelude.{
  ℕ, zero, suc, ◌≡◌, refl, sym, ap, ◌∙◌, inl, inr, Bool, false, ◌||◌, List, ◌++◌, some, arith,
  String, Text, Bool-cases,
}
use smart_classroom.Domain.Settings.{Settings}
use smart_classroom.Domain.Rows.{Host}
use smart_classroom.Pairing.Push.{
  Reply, Reason, unreachable, judge, push_rounds, is_blank, attempts_for, push_pin,
}
use smart_classroom.Pairing.Attempts.{Verdict-cases}
use smart_classroom.Pairing.Relay.{
  PinRequest, Effect, warnings_of, pause, relay_rounds, pin_request, relay_pin,
}
use smart_classroom.Pairing.Relay.Effects.{log_lines, log_lines-append, log_lines-with_client}

relay_rounds-push_rounds :
    (request : PinRequest) (host_id base : ℕ) (replies : ℕ → Reply) (m rounds attempt : ℕ)
    (last : Reason)
    → (relay_rounds request host_id base replies m rounds attempt last).0
      ≡ push_rounds replies m rounds attempt last
unfolding relay_rounds push_rounds
relay_rounds-push_rounds request host_id base replies m zero attempt last = refl
relay_rounds-push_rounds request host_id base replies m (suc rounds) attempt last =
    elim (Verdict-cases (judge (replies attempt))) [
      | inl a ↦ ground (arith, a)
      | inr (inl (r, a)) ↦ ground (arith, a)
      | inr (inr (r, a)) ↦
          ground (
            arith,
            a,
            relay_rounds-push_rounds request host_id base replies m rounds (suc attempt) r,
          )
    ]

-- What the run makes of Sunshine's answers is what the loop alone makes of them.
pub relay_pin-push_pin :
    (str : ℕ → Text) (settings : Settings) (host : Host) (pin : Text) (reservation_id : ℕ)
    (has_client : Bool) (replies : ℕ → Reply)
    → (relay_pin str settings host pin reservation_id has_client replies).0
      ≡ push_pin settings host replies
unfolding relay_pin push_pin
relay_pin-push_pin str settings host pin reservation_id has_client replies =
    elim (Bool-cases (is_blank host.ip_address || is_blank host.sunshine_broker_token)) [
      | inl e ↦ ground (arith, e)
      | inr e ↦ rw e (
          relay_rounds-push_rounds (pin_request str settings host pin reservation_id) host.id
            settings.sunshine_pair_backoff_base_seconds replies _ _ 1 unreachable)
    ]

same_lines :
    (before x y : List Effect)
    → log_lines x ≡ log_lines y
    → log_lines (before ++ x) ≡ log_lines (before ++ y)
same_lines before x y e =
    log_lines-append before x
    ∙ (ap (λ l. log_lines before ++ l) e ∙ sym (log_lines-append before y))

log_lines-relay_rounds :
    (a b : PinRequest) (host_id base : ℕ) (replies : ℕ → Reply) (m rounds attempt : ℕ)
    (last : Reason)
    → log_lines (relay_rounds a host_id base replies m rounds attempt last).1
      ≡ log_lines (relay_rounds b host_id base replies m rounds attempt last).1
unfolding relay_rounds log_lines
log_lines-relay_rounds a b host_id base replies m zero attempt last = refl
log_lines-relay_rounds a b host_id base replies m (suc rounds) attempt last =
    elim (Verdict-cases (judge (replies attempt))) [
      | inl e ↦ ground (arith, e)
      | inr (inl (r, e)) ↦ ground (arith, e)
      | inr (inr (r, e)) ↦
          rw (e, relay_rounds)
            (same_lines (warnings_of host_id attempt (replies attempt)) _ _ (
              same_lines (pause base m attempt) _ _
                (log_lines-relay_rounds a b host_id base replies m rounds (suc attempt) r)))
    ]

-- The log of the run for a host with an address and a token does not depend on the client.
lines_of :
    (str : ℕ → Text) (settings : Settings) (host : Host) (pin : Text) (reservation_id : ℕ)
    (has_client : Bool) (replies : ℕ → Reply)
    → (is_blank host.ip_address || is_blank host.sunshine_broker_token) ≡ false
    → log_lines (relay_pin str settings host pin reservation_id has_client replies).1
      ≡ log_lines
          (relay_rounds
            (pin_request str settings host pin reservation_id)
            host.id
            settings.sunshine_pair_backoff_base_seconds
            replies
            (attempts_for settings)
            (attempts_for settings)
            1
            unreachable).1
unfolding relay_pin
lines_of str settings host pin reservation_id has_client replies h =
    rw h (log_lines-with_client settings _ has_client)

-- The token of a host is not told: with another token in its place, neither blank, the outcome with
-- its reason and the log lines are the same, whatever Sunshine answers.
pub relay_pin-secret :
    (str : ℕ → Text) (settings : Settings) (host : Host) (pin : Text) (reservation_id : ℕ)
    (has_client : Bool) (replies : ℕ → Reply) (token other : String)
    → is_blank (some token) ≡ false
    → is_blank (some other) ≡ false
    → let run = λ (t : String).
      relay_pin str settings
        (record host { sunshine_broker_token = some t })
        pin
        reservation_id
        has_client
        replies in
      ((run token).0 ≡ (run other).0) × (log_lines (run token).1 ≡ log_lines (run other).1)
unfolding relay_pin push_pin
relay_pin-secret str settings host pin reservation_id has_client replies token other p q =
    let here = record host { sunshine_broker_token = some token } in
    let there = record host { sunshine_broker_token = some other } in
    let same : push_pin settings here replies ≡ push_pin settings there replies =
      ground (arith, p, q) in
    (
      relay_pin-push_pin str settings here pin reservation_id has_client replies
          ∙ (same
              ∙ sym (relay_pin-push_pin str settings there pin reservation_id has_client replies)),
      elim (Bool-cases (is_blank host.ip_address)) [
        | inl e ↦ ground (arith, e)
        | inr e ↦
            lines_of str settings here pin reservation_id has_client replies (ground (arith, e, p))
            ∙ (log_lines-relay_rounds _ _ host.id _ replies _ _ 1 unreachable
                ∙ sym (
                    lines_of str settings there pin reservation_id has_client replies
                      (ground (arith, e, q))))
      ],
    )
