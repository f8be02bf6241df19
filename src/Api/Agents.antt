-- ===== src/Api/Agents.antt =====
-- broker/app/api/v1/agents.py: the heartbeat of a host's agent. The Prometheus gauges that the
-- endpoint also sets are left out, and of the payload what the broker stores or reads is kept.
use smart_classroom.Prelude.{ℕ, true, some, ◌==◌, update_where, is_some}
use smart_classroom.Domain.Settings.{Settings}
use smart_classroom.Domain.Rows.{Host, Metadata, HostStatus}
use smart_classroom.Domain.Db.{Db}
use smart_classroom.Reservation.Access.{get_active_reservation_for_host}
use smart_classroom.Hosts.Status.{World, evaluate_host_status, transition_host}

-- `host.last_heartbeat_at = now`, `host.host_metadata = metadata`.
abbrev pub set_report : ℕ → Metadata → Host → Host
set_report now report h = record h { last_heartbeat_at = some now; host_metadata = some report }

abbrev pub store_report : ℕ → Metadata → Host → World → World
store_report now report host w = record w {
  db = record (w.db) {
    hosts = update_where (λ h. h.id == host.id) (set_report now report) w.db.hosts;
  };
}

abbrev pub reported_status : Settings → ℕ → Metadata → ℕ → Db → HostStatus
reported_status settings now report host_id db =
    evaluate_host_status settings now (some now)
      (is_some (get_active_reservation_for_host host_id now db)) report.sunshine_running
      (some report.cpu_pct) (some report.mem_pct)

-- `heartbeat_endpoint`, for the host that `get_agent_host` found; the new status is returned.
unfoldable pub heartbeat_endpoint : Settings → ℕ → Metadata → Host → World → HostStatus × World
heartbeat_endpoint settings now report host w =
    let w' = store_report now report host w in
    let new_status = reported_status settings now report host.id w'.db in
    let (changed, w'') =
      transition_host (set_report now report host) new_status "heartbeat" true now w' in
    (new_status, w'')
