-- ===== src/Hosts/Evaluation.antt =====
-- The rules of the status machine, each as the exact condition of one status, and its transition.
use smart_classroom.Prelude.{
  ℕ, ◌+◌, ◌*◌, ◌≤◌, ◌<◌, ◌≡◌, ◌↔◌, subst, refl, ◌⊎◌, Bool, true, false, Option, none, some, arith,
}
use smart_classroom.Domain.Time.{second}
use smart_classroom.Domain.Settings.{Settings}
use smart_classroom.Domain.Rows.{HostStatus, offline, idle, in_use, degraded}
use smart_classroom.Hosts.Status.{evaluate_host_status}

-- No heartbeat was ever received, or the last one is too old.
abbrev pub IsSilent : Settings → ℕ → Option ℕ → Type 0
IsSilent settings now none = Unit
IsSilent settings now (some t) = t + settings.host_offline_after_seconds * second < now

abbrev pub IsAtLeast : Option ℕ → ℕ → Type 0
IsAtLeast none limit = ⊥
IsAtLeast (some x) limit = limit ≤ x

abbrev pub IsOverloaded : Settings → Option ℕ → Option ℕ → Type 0
IsOverloaded settings cpu mem =
    IsAtLeast cpu settings.host_degraded_cpu_pct ⊎ IsAtLeast mem settings.host_degraded_mem_pct

-- The rule for each status: what must hold for it to be the answer.
abbrev pub Rule : Settings → ℕ → Option ℕ → Bool → Bool → Option ℕ → Option ℕ → HostStatus → Type 0
Rule settings now last active running cpu mem offline = IsSilent settings now last
Rule settings now last active running cpu mem in_use =
    (¬ IsSilent settings now last) × (active ≡ true) × (running ≡ true)
Rule settings now last active running cpu mem degraded =
    (¬ IsSilent settings now last)
    × (((active ≡ true) × (running ≡ false)) ⊎ ((active ≡ false) × IsOverloaded settings cpu mem))
Rule settings now last active running cpu mem idle =
    (¬ IsSilent settings now last) × (active ≡ false) × (¬ IsOverloaded settings cpu mem)

-- The status that is computed meets its rule: OFFLINE if the host is silent; else IN_USE or DEGRADED
-- with an active reservation, by whether Sunshine runs; else DEGRADED or IDLE, by the load.
pub evaluate-Rule :
    (settings : Settings) (now : ℕ) (last : Option ℕ) (active running : Bool) (cpu mem : Option ℕ)
    → Rule settings now last active running cpu mem
        (evaluate_host_status settings now last active running cpu mem)
unfolding evaluate_host_status
evaluate-Rule settings now none active running cpu mem = tt
evaluate-Rule settings now (some t) active running none none = ground arith
evaluate-Rule settings now (some t) active running none (some m) = ground arith
evaluate-Rule settings now (some t) active running (some c) none = ground arith
evaluate-Rule settings now (some t) active running (some c) (some m) = ground arith

-- A status whose rule holds is the one that is computed.
pub Rule-evaluate :
    (settings : Settings) (now : ℕ) (last : Option ℕ) (active running : Bool) (cpu mem : Option ℕ)
    (s : HostStatus)
    → Rule settings now last active running cpu mem s
    → evaluate_host_status settings now last active running cpu mem ≡ s
unfolding evaluate_host_status
Rule-evaluate settings now none active running cpu mem offline r = refl
Rule-evaluate settings now none active running cpu mem idle r = absurd (r.0 tt)
Rule-evaluate settings now none active running cpu mem in_use r = absurd (r.0 tt)
Rule-evaluate settings now none active running cpu mem degraded r = absurd (r.0 tt)
Rule-evaluate settings now (some t) active running none none s r = ground arith
Rule-evaluate settings now (some t) active running none (some m) s r = ground arith
Rule-evaluate settings now (some t) active running (some c) none s r = ground arith
Rule-evaluate settings now (some t) active running (some c) (some m) s r = ground arith

-- The status that is computed is the one whose rule holds, and no other: OFFLINE if the host is
-- silent; else IN_USE or DEGRADED with an active reservation, by whether Sunshine runs; else DEGRADED
-- or IDLE, by the load.
pub evaluate_host_status-Rule :
    (settings : Settings) (now : ℕ) (last : Option ℕ) (active running : Bool) (cpu mem : Option ℕ)
    (s : HostStatus)
    → (evaluate_host_status settings now last active running cpu mem ≡ s)
      ↔ Rule settings now last active running cpu mem s
evaluate_host_status-Rule settings now last active running cpu mem s = (
  λ e.
      subst (Rule settings now last active running cpu mem) e
        (evaluate-Rule settings now last active running cpu mem),
  Rule-evaluate settings now last active running cpu mem s,
)
