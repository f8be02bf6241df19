-- ===== src/Hosts/Status.antt =====
-- broker/app/services/host_status.py: the evaluation of a host's status and the transition.
use smart_classroom.Prelude.{
  ℕ, ◌-◌, ◌*◌, Bool, true, false, ◌∷◌, Option, none, some, ◌==◌, ltb, leb, String, if◌then◌else◌,
  update_where,
}
use smart_classroom.Domain.Time.{second}
use smart_classroom.Domain.Settings.{Settings}
use smart_classroom.Domain.Rows.{Host, HostStatus, offline, idle, in_use, degraded, same_status}
use smart_classroom.Domain.Audit.{
  host_status_change, by_system, host_target, success, status_changed,
}
use smart_classroom.Domain.Db.{Db, log_row}
use smart_classroom.Hosts.Events.{HostEventBroker, publish}

-- `x is not None and x >= limit`
abbrev pub reaches : Option ℕ → ℕ → Bool
reaches none limit = false
reaches (some x) limit = leb limit x

-- `now - last > timedelta(seconds=...)`; a reading that lies ahead of `now` is not late.
abbrev pub is_late : Settings → ℕ → ℕ → Bool
is_late settings now last = ltb (settings.host_offline_after_seconds * second) (now - last)

unfoldable pub evaluate_host_status :
    Settings → ℕ → Option ℕ → Bool → Bool → Option ℕ → Option ℕ → HostStatus
evaluate_host_status settings now none has_active sunshine_running cpu_pct mem_pct = offline
evaluate_host_status settings now (some last) has_active sunshine_running cpu_pct mem_pct =
    if is_late settings now last
    then offline
    else if has_active
    then (if sunshine_running then in_use else degraded)
    else if reaches cpu_pct settings.host_degraded_cpu_pct
    then degraded
    else if reaches mem_pct settings.host_degraded_mem_pct
    then degraded
    else idle

-- The database and the process-wide event broker.
pub record World : Type 0 where
  pub db : Db
  pub events : HostEventBroker

abbrev pub set_status : HostStatus → Host → Host
set_status s h = record h { status = s }

-- `transition_host`; `notify` is false where the caller passes `broker=None`.
unfoldable pub transition_host : Host → HostStatus → String → Bool → ℕ → World → Bool × World
transition_host host new_status reason notify now w =
    if same_status host.status new_status then (false, w) else (
      true,
      record w {
        db = record (w.db) {
          hosts = update_where (λ h. h.id == host.id) (set_status new_status) w.db.hosts;
          audit_logs =
              log_row
                (record {
                  action = host_status_change;
                  actor_user_id = none;
                  actor_kind = by_system;
                  target_kind = some host_target;
                  target_id = some host.id;
                  result = success;
                  detail = status_changed host.status new_status reason;
                  auth_provider = none;
                })
                w.db
              ∷ w.db.audit_logs;
        };
        events =
            if notify
            then publish
                (record {
                  host_id = host.id;
                  hostname = host.hostname;
                  old = host.status;
                  new = new_status;
                  reason = reason;
                  ts = now;
                })
                w.events
            else w.events;
      },
    )
