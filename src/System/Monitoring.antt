-- ===== src/System/Monitoring.antt =====
-- The monitor's loop inside the broker: it ends, and the broker's invariant outlasts it.
use smart_classroom.Prelude.{
  ℕ, zero, suc, ◌+◌, ◌≤◌, ◌<◌, ◌≡◌, ◌≢◌, refl, subst, inl, inr, Bool, true, false, Option, some,
  arith, Bool-cases, Option-cases, if◌then◌else◌,
}
use smart_classroom.Domain.Settings.{Settings}
use smart_classroom.Hosts.Status.{World}
use smart_classroom.Hosts.Monitor.{Rounds, try_tick, monitor_rounds, run_monitor_loop}
use smart_classroom.System.Invariant.{Inv}
use smart_classroom.System.Reach.{tick-Inv}

try_tick-Inv :
    (settings : Settings) (rounds : Rounds) (k : ℕ) (w : World)
    → Inv w.db
    → Inv (try_tick settings rounds k w).db
unfolding try_tick
try_tick-Inv settings rounds k w v = elim (Option-cases (rounds.failure k)) [
  | inl e ↦ rw (e, try_tick) (tick-Inv settings (rounds.clock k) w v)
  | inr (f, e) ↦ rw (e, try_tick) v
]

-- What the rest of the broker does between two rounds keeps the invariant.
abbrev pub KeepsInv : Rounds → Type 0
KeepsInv rounds = (k : ℕ) (w : World) → Inv w.db → Inv (rounds.meanwhile k w).db

-- The loop has ended, in a state with the invariant.
abbrev pub EndsWell : Option World → Type 0
EndsWell result = (w : World) × (result ≡ some w) × Inv w.db

branch : (b : Bool) (x y z : Option World) → b ≡ false → y ≡ z → (if b then x else y) ≡ z
branch b x y z e h = rw (e, if◌then◌else◌) h

monitor_rounds-EndsWell :
    (settings : Settings) (rounds : Rounds) (fuel j k : ℕ) (w : World)
    → KeepsInv rounds
    → rounds.is_set k ≡ true
    → j ≤ k
    → k < j + fuel
    → Inv w.db
    → EndsWell (monitor_rounds settings rounds fuel j w)
unfolding monitor_rounds
monitor_rounds-EndsWell settings rounds zero j k w keeps set le lt v = absurd (omega arith)
monitor_rounds-EndsWell settings rounds (suc fuel) j k w keeps set le lt v =
    elim (Bool-cases (rounds.is_set j)) [
      | inl e ↦ (w, rw (e, if◌then◌else◌) refl, v)
      | inr e ↦
          let later : j ≢ k =
            λ (same : j ≡ k). ground (arith, subst (λ n. rounds.is_set n ≡ false) same e) in
          let next = rounds.meanwhile j (try_tick settings rounds j w) in
          let (w', ended, v') =
            monitor_rounds-EndsWell settings rounds fuel (j + 1) k next keeps set
              (omega (arith, later)) (omega arith)
              (keeps j _ (try_tick-Inv settings rounds j w v)) in
          (w', branch (rounds.is_set j) (some w) _ _ e ended, v')
    ]

-- If `stop_event` is set at the start of some round k, the monitor's loop ends, with any fuel above k,
-- whichever of its ticks fail; and if the database had the broker's invariant at the start, and the
-- rest of the broker keeps it between the rounds, the database that the loop leaves has it too.
pub run_monitor_loop-EndsWell :
    (settings : Settings) (rounds : Rounds) (k fuel : ℕ) (w : World)
    → rounds.is_set k ≡ true
    → k < fuel
    → KeepsInv rounds
    → Inv w.db
    → EndsWell (run_monitor_loop settings rounds fuel w)
unfolding run_monitor_loop
run_monitor_loop-EndsWell settings rounds k fuel w set lt keeps v =
    monitor_rounds-EndsWell settings rounds fuel 0 k w keeps set (omega arith) (omega arith) v
