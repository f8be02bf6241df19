-- ===== src/Agent/Heartbeat/Ending.antt =====
-- When the heartbeat loop ends, and what it has sent by then.
use smart_classroom.Prelude.{
  ℕ, zero, suc, ◌+◌, ◌≤◌, ◌<◌, ◌≡◌, refl, sym, ◌∙◌, ap, ◌≢◌, subst, ◌⊎◌, inl, inr, Bool, true,
  false, ◌&&◌, List, [], ◌∷◌, Option, none, some, arith, max, Bool-cases, Text, if◌then◌else◌,
}
use smart_classroom.Agent.Heartbeat.{
  Around, Entry, send_heartbeat, reached, heartbeat_cycles, run_heartbeat_loop, doctor_cmd,
}

module _ {System Gpu Rtt A : Type 0} (version : Text) (has_cfg : Bool)
    (w : Around System Gpu Rtt A) where
  -- A heartbeat for each of `count` cycles from `start` on.
  abbrev pub sent : ℕ → ℕ → List (Entry A)
  sent start zero = []
  sent start (suc count) = send_heartbeat version has_cfg w start ∷ sent (start + 1) count

  -- Something ends the loop in the cycle k at the latest.
  abbrev pub Ends : Bool → Option ℕ → ℕ → Type 0
  Ends has_event max_cycles k =
      ((m : ℕ) × (max_cycles ≡ some m) × (m ≤ k + 1))
      ⊎ ((has_event ≡ true) × ((w.is_set k ≡ true) ⊎ (w.is_woken k ≡ true)))

  -- The loop returns after some number of further cycles, each of which has sent one heartbeat.
  abbrev Returns : ℕ → ℕ → Option (ℕ × List (Entry A)) → Type 0
  Returns cycles k result =
      (count : ℕ) × (result ≡ some (cycles + count, sent cycles count)) × (cycles + count ≤ k + 1)

  goes_on :
      (has_event : Bool) (max_cycles : Option ℕ) (k : ℕ)
      → Ends has_event max_cycles k
      → (has_event && w.is_set k) ≡ false
      → reached max_cycles (k + 1) ≡ false
      → (has_event && w.is_woken k) ≡ false
      → ⊥
  goes_on has_event max_cycles k (inl (m, e, le)) a b c =
      ground (arith, subst (λ o. reached o (k + 1) ≡ false) e b)
  goes_on has_event max_cycles k (inr (e, inl set)) a b c = ground (arith, e, set)
  goes_on has_event max_cycles k (inr (e, inr woken)) a b c = ground (arith, e, woken)

  heartbeat_cycles_end :
      (fuel : ℕ) (has_event : Bool) (max_cycles : Option ℕ) (k cycles : ℕ)
      → Ends has_event max_cycles k
      → cycles ≤ k
      → k < cycles + fuel
      → Returns cycles k (heartbeat_cycles version has_cfg w fuel has_event max_cycles cycles)
  unfolding heartbeat_cycles
  heartbeat_cycles_end zero has_event max_cycles k cycles h le lt = absurd (omega arith)
  heartbeat_cycles_end (suc fuel) has_event max_cycles k cycles h le lt =
      elim (Bool-cases (has_event && w.is_set cycles)) [
        | inl a ↦ (0, rw (a, if◌then◌else◌) (ap (λ n. some (n, [])) (omega arith)), omega arith)
        | inr a ↦ elim (Bool-cases (reached max_cycles (cycles + 1))) [
          | inl b ↦ (1, rw (a, b, if◌then◌else◌) refl, omega arith)
          | inr b ↦ elim (Bool-cases (has_event && w.is_woken cycles)) [
            | inl c ↦ (1, rw (a, b, c, if◌then◌else◌) refl, omega arith)
            | inr c ↦
                let later : cycles ≢ k = λ e.
                  goes_on has_event max_cycles k h
                    (subst (λ n. (has_event && w.is_set n) ≡ false) e a)
                    (subst (λ n. reached max_cycles (n + 1) ≡ false) e b)
                    (subst (λ n. (has_event && w.is_woken n) ≡ false) e c) in
                let (count, returned, bound) =
                  heartbeat_cycles_end fuel has_event max_cycles k (cycles + 1) h
                    (omega (arith, later)) (omega arith) in
                (
                  suc count,
                  rw (a, b, c, if◌then◌else◌, returned)
                      (ap
                        (λ n.
                          some
                            (n, send_heartbeat version has_cfg w cycles ∷ sent (cycles + 1) count))
                        (omega arith)),
                  omega arith,
                )
          ]
        ]
      ]

  -- The heartbeat loop ends: if `max_cycles` is at most k + 1, or a `stop_event` is set in the cycle k
  -- (counted from 0) or wakes the wait after it, the loop returns after k + 1 cycles at most, with any
  -- fuel above k and whatever the collectors and the broker do. It returns the number of its cycles,
  -- and has tried one heartbeat in each.
  pub run_heartbeat_loop_stops :
      (has_event : Bool) (max_cycles : Option ℕ) (k : ℕ)
      → Ends has_event max_cycles k
      → (fuel : ℕ) → k < fuel
      → (count : ℕ) × (run_heartbeat_loop version has_cfg w fuel has_event max_cycles
          ≡ some (count, sent 0 count))
        × (count ≤ k + 1)
  unfolding run_heartbeat_loop
  run_heartbeat_loop_stops has_event max_cycles k h fuel lt =
      let (count, returned, bound) =
        heartbeat_cycles_end fuel has_event max_cycles k 0 h (omega arith) (omega arith) in
      (count, returned ∙ ap (λ n. some (n, sent 0 count)) (omega arith), omega (arith, bound))

  unstopped :
      (fuel m cycles : ℕ)
      → cycles < m
      → m ≤ cycles + fuel
      → (count : ℕ) × (cycles + count ≡ m)
        × (heartbeat_cycles version has_cfg w fuel false (some m) cycles
            ≡ some (m, sent cycles count))
  unfolding heartbeat_cycles
  unstopped zero m cycles lt le = absurd (omega arith)
  unstopped (suc fuel) m cycles lt le = elim (Bool-cases (reached (some m) (cycles + 1))) [
    | inl b ↦ (
      1,
      ground arith,
      rw (b, if◌then◌else◌)
          (ap (λ n. some (n, send_heartbeat version has_cfg w cycles ∷ [])) (ground arith)),
    )
    | inr b ↦
        let (count, total, returned) = unstopped fuel m (cycles + 1) (ground arith) (omega arith) in
        (suc count, omega (arith, total), rw (b, if◌then◌else◌, returned) refl)
  ]

  endless : (fuel cycles : ℕ) → heartbeat_cycles version has_cfg w fuel false none cycles ≡ none
  unfolding heartbeat_cycles
  endless zero cycles = refl
  endless (suc fuel) cycles = rw (endless fuel (cycles + 1)) refl

  -- Without a `stop_event`, the heartbeat loop with a `max_cycles` of m returns the larger of m and 1,
  -- after one heartbeat for each cycle from 0 on, whatever fails; and with no `max_cycles` it never
  -- returns, as no fuel is enough.
  pub run_heartbeat_loop_count :
      (fuel m : ℕ)
      → max 1 m ≤ fuel
      → (run_heartbeat_loop version has_cfg w fuel false (some m)
          ≡ some (max 1 m, sent 0 (max 1 m)))
        × (run_heartbeat_loop version has_cfg w fuel false none ≡ none)
  unfolding run_heartbeat_loop heartbeat_cycles
  run_heartbeat_loop_count zero zero le = absurd (omega arith)
  run_heartbeat_loop_count (suc fuel) zero le = (refl, endless (suc fuel) 0)
  run_heartbeat_loop_count fuel (suc m) le =
      let larger : max 1 (suc m) ≡ suc m = omega arith in
      let (count, total, returned) =
        unstopped fuel (suc m) 0 (omega arith) (omega (arith, larger)) in
      let all : count ≡ suc m = omega (arith, total) in
      (
        subst
            (λ n.
              run_heartbeat_loop version has_cfg w fuel false (some (suc m)) ≡ some (n, sent 0 n))
            (sym larger)
            (subst
              (λ n.
                run_heartbeat_loop version has_cfg w fuel false (some (suc m))
                ≡ some (suc m, sent 0 n))
              all returned),
        endless fuel 0,
      )

  -- The command `doctor` ends and says that it sent one heartbeat, whatever the collectors and the
  -- broker do, also if the log has nothing but a failure.
  pub doctor_cmd_sent :
      (fuel : ℕ)
      → 0 < fuel
      → doctor_cmd version has_cfg w fuel ≡ some (1, send_heartbeat version has_cfg w 0 ∷ [])
  unfolding doctor_cmd
  doctor_cmd_sent fuel some_fuel = (run_heartbeat_loop_count fuel 1 (omega arith)).0
