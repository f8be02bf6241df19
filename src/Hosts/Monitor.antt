-- ===== src/Hosts/Monitor.antt =====
-- broker/app/services/host_status_monitor.py: the task that takes silent hosts offline.
use smart_classroom.Prelude.{
  ℕ, zero, suc, ◌+◌, ◌-◌, ◌*◌, Bool, true, ◌&&◌, not, List, [], ◌∷◌, Option, none, some, ltb,
  if◌then◌else◌, select_where,
}
use smart_classroom.Domain.Time.{second}
use smart_classroom.Domain.Settings.{Settings}
use smart_classroom.Domain.Rows.{Host, offline, is_offline}
use smart_classroom.Hosts.Events.{HostEventBroker}
use smart_classroom.Hosts.Status.{World, transition_host}

-- `last_heartbeat_at IS NULL OR last_heartbeat_at < cutoff`
abbrev pub before_cutoff : Option ℕ → ℕ → Bool
before_cutoff none cutoff = true
before_cutoff (some t) cutoff = ltb t cutoff

abbrev pub is_stale : ℕ → Host → Bool
is_stale cutoff h = not (is_offline h.status) && before_cutoff h.last_heartbeat_at cutoff

-- The loop over the selected rows, with the count of those that changed.
unfoldable pub take_offline : ℕ → List Host → ℕ → World → ℕ × World
take_offline now [] transitioned w = (transitioned, w)
take_offline now (h ∷ rows) transitioned w =
    let (changed, w') = transition_host h offline "heartbeat_stale" true now w in
    take_offline now rows (if changed then transitioned + 1 else transitioned) w'

unfoldable pub run_one_tick : Settings → ℕ → World → ℕ × World
run_one_tick settings now w =
    let cutoff = now - settings.host_offline_after_seconds * second in
    take_offline now (select_where (is_stale cutoff) w.db.hosts) 0 w

-- What happens around the loop in the round of each number: whether `stop_event` is set at its start,
-- the clock, an error in the tick, and what the rest of the broker does until the wait is over. An
-- error rolls the database back; what was published before it stays published.
pub record Rounds : Type 0 where
  pub is_set : ℕ → Bool
  pub clock : ℕ → ℕ
  pub failure : ℕ → Option (HostEventBroker → HostEventBroker)
  pub meanwhile : ℕ → World → World

-- The body of the first `try`, with its handler.
unfoldable pub try_tick : Settings → Rounds → ℕ → World → World
try_tick settings rounds k w = elim (rounds.failure k) [
  | none ↦ (run_one_tick settings (rounds.clock k) w).1
  | some publish_some ↦ record w { events = publish_some w.events }
]

-- The `while` of `run_monitor_loop` from the round k on, none if the fuel is spent.
unfoldable pub monitor_rounds : Settings → Rounds → ℕ → ℕ → World → Option World
monitor_rounds settings rounds zero k w = none
monitor_rounds settings rounds (suc fuel) k w =
    let rest =
      monitor_rounds settings rounds fuel (k + 1)
        (rounds.meanwhile k (try_tick settings rounds k w)) in
    if rounds.is_set k then some w else rest

unfoldable pub run_monitor_loop : Settings → Rounds → ℕ → World → Option World
run_monitor_loop settings rounds fuel w = monitor_rounds settings rounds fuel 0 w
