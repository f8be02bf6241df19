-- ===== src/Pairing/Relay/Backoff.antt =====
-- The requests and the sleeps of the retry loop: one request per attempt, and twice the time before
-- each next one.
use smart_classroom.Prelude.{
  ℕ, zero, suc, ◌+◌, ◌*◌, ◌^◌, ◌≤◌, ◌<◌, ◌≡◌, refl, ap, ◌∙◌, inl, inr, List, [], ◌∷◌, ◌++◌, arith,
}
use smart_classroom.Domain.Settings.{Settings}
use smart_classroom.Pairing.Push.{
  Reply, Reason, unreachable, Outcome, paired, host_not_pairable, pairing_unreachable,
  pairing_rejected, transport_error, response, sunshine_rejected, sunshine_unauthorized,
  sunshine_server_error, missing_ip_or_token, judge, exhausted,
}
use smart_classroom.Pairing.Attempts.{Verdict-cases}
use smart_classroom.Pairing.Relay.{PinRequest, Effect, posted, warnings_of, pause, relay_rounds}
use smart_classroom.Pairing.Relay.Effects.{requests, time_slept, requests-append, time_slept-append}

abbrev pub replicate : {A : Type 0} → ℕ → A → List A
replicate zero x = []
replicate (suc n) x = x ∷ replicate n x

-- The number of attempts that a result or an error tells.
abbrev pub attempts_of : Outcome → ℕ
attempts_of (paired attempts) = attempts
attempts_of host_not_pairable = 0
attempts_of (pairing_unreachable reason attempts) = attempts
attempts_of (pairing_rejected reason attempts) = attempts

exhausted-attempts : (reason : Reason) (m : ℕ) → attempts_of (exhausted reason m) ≡ m
unfolding exhausted
exhausted-attempts sunshine_rejected m = refl
exhausted-attempts missing_ip_or_token m = refl
exhausted-attempts unreachable m = refl
exhausted-attempts sunshine_unauthorized m = refl
exhausted-attempts sunshine_server_error m = refl

-- After `b` attempts: `n + 1` further requests, all the same, counted in the outcome, and the sleeps
-- between them, each twice as long as the one before.
abbrev pub Backs : PinRequest → ℕ → ℕ → ℕ → Outcome × List Effect → Type 0
Backs request base b rounds run =
    (n : ℕ) × (requests run.1 ≡ replicate (suc n) request)
    × (attempts_of run.0 ≡ b + suc n)
    × (suc n ≤ rounds)
    × (time_slept run.1 + base * 2 ^ b ≡ base * 2 ^ (b + n))

pow-double : (base b : ℕ) → base * 2 ^ suc b ≡ base * 2 ^ b + base * 2 ^ b
pow-double base b = grind arith

module _ (request : PinRequest) (host_id base : ℕ) (replies : ℕ → Reply) (m : ℕ) where
  abbrev tried : ℕ → List Effect
  tried attempt = posted request ∷ warnings_of host_id attempt (replies attempt)

  warned_only :
      (attempt : ℕ) (reply : Reply)
      → (requests (warnings_of host_id attempt reply) ≡ [])
        × (time_slept (warnings_of host_id attempt reply) ≡ 0)
  unfolding warnings_of requests time_slept
  warned_only attempt transport_error = (refl, refl)
  warned_only attempt (response code ok) = (ground arith, ground arith)

  decided :
      (o : Outcome) (b rounds : ℕ)
      → attempts_of o ≡ suc b
      → Backs request base b (suc rounds) (o, tried (suc b))
  unfolding requests time_slept
  decided o b rounds e =
      let (quiet, idle) = warned_only (suc b) (replies (suc b)) in
      let here : b + 0 ≡ b = omega arith in
      (0, ap (λ l. request ∷ l) quiet, omega (arith, e), omega arith, rw here (omega (arith, idle)))

  requests-next :
      (b : ℕ) (after : List Effect)
      → requests (tried (suc b) ++ (pause base m (suc b) ++ after)) ≡ request ∷ requests after
  unfolding requests pause
  requests-next b after =
      ap (λ l. request ∷ l)
        (requests-append (warnings_of host_id (suc b) (replies (suc b))) _
          ∙ ground (arith, (warned_only (suc b) (replies (suc b))).0))

  time_slept-next :
      (b : ℕ) (after : List Effect)
      → suc b < m
      → time_slept (tried (suc b) ++ (pause base m (suc b) ++ after))
        ≡ base * 2 ^ b + time_slept after
  unfolding time_slept pause
  time_slept-next b after h =
      time_slept-append (warnings_of host_id (suc b) (replies (suc b))) _
      ∙ ground (arith, (warned_only (suc b) (replies (suc b))).1)

  -- The last attempt is not followed by a sleep.
  spent :
      (o : Outcome) (b : ℕ)
      → m ≡ suc b
      → attempts_of o ≡ suc b
      → Backs request base b 1 (o, tried (suc b) ++ (pause base m (suc b) ++ []))
  unfolding requests time_slept pause
  spent o b e c =
      let (quiet, idle) = warned_only (suc b) (replies (suc b)) in
      let here : b + 0 ≡ b = omega arith in
      let rest : time_slept (pause base m (suc b) ++ []) ≡ 0 = ground (arith, e) in
      (
        0,
        requests-next b [],
        omega (arith, c),
        omega arith,
        rw here (
            omega (
              arith,
              time_slept-append (warnings_of host_id (suc b) (replies (suc b))) _,
              idle,
              rest,
            )),
      )

  again :
      (run : Outcome × List Effect) (b rounds : ℕ)
      → suc b < m
      → Backs request base (suc b) (suc rounds) run
      → Backs request base b
          (suc (suc rounds))
          (run.0, tried (suc b) ++ (pause base m (suc b) ++ run.1))
  again run b rounds h (n, same, counted, few, slow) =
      let here : b + suc n ≡ suc b + n = omega arith in
      (
        suc n,
        requests-next b run.1 ∙ ap (λ l. request ∷ l) same,
        omega (arith, counted),
        omega (arith, few),
        rw here (omega (arith, time_slept-next b run.1 h, slow, pow-double base b)),
      )

  pub relay_rounds-Backs :
      (rounds b : ℕ) (last : Reason)
      → m ≡ b + suc rounds
      → Backs request base b
          (suc rounds)
          (relay_rounds request host_id base replies m (suc rounds) (suc b) last)
  unfolding relay_rounds
  relay_rounds-Backs zero b last e = elim (Verdict-cases (judge (replies (suc b)))) [
    | inl a ↦ rw (a, relay_rounds) (decided (paired (suc b)) b 0 refl)
    | inr (inl (r, a)) ↦ rw (a, relay_rounds) (decided (pairing_rejected r (suc b)) b 0 refl)
    | inr (inr (r, a)) ↦
        rw (a, relay_rounds)
          (spent (exhausted r m) b (omega (arith, e)) (exhausted-attempts r m ∙ omega (arith, e)))
  ]
  relay_rounds-Backs (suc rounds) b last e = elim (Verdict-cases (judge (replies (suc b)))) [
    | inl a ↦ rw (a, relay_rounds) (decided (paired (suc b)) b (suc rounds) refl)
    | inr (inl (r, a)) ↦
        rw (a, relay_rounds) (decided (pairing_rejected r (suc b)) b (suc rounds) refl)
    | inr (inr (r, a)) ↦
        rw (a, relay_rounds)
          (again (relay_rounds request host_id base replies m (suc rounds) (suc (suc b)) r) b rounds
            (omega (arith, e)) (relay_rounds-Backs rounds (suc b) r (omega (arith, e))))
  ]
