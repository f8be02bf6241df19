-- ===== src/Hosts/Metrics.antt =====
-- broker/app/core/metrics.py: the gauges of a host. A gauge is a function of its labels, none where
-- nothing is set.
use smart_classroom.Prelude.{
  ℕ, ◌≡◌, ◌≢◌, ◌&&◌, Option, none, some, arith, String, str_eq, eq_iff, if◌then◌else◌,
}
use smart_classroom.Domain.Rows.{HostStatus, offline, idle, in_use, degraded, same_status}

pub record Gauges : Type 0 where
  pub cpu_percent : String → Option ℕ
  pub mem_percent : String → Option ℕ
  pub gpu_percent : String → Option ℕ
  pub status_info : String → HostStatus → Option ℕ

-- `HOST_STATUS_INFO.labels(...).set(...)`
unfoldable pub set_info :
    String → HostStatus → ℕ → (String → HostStatus → Option ℕ) → String → HostStatus → Option ℕ
set_info hostname s value info h t =
    if str_eq h hostname && same_status t s then some value else info h t

abbrev pub indicator : HostStatus → HostStatus → ℕ
indicator s status = if same_status s status then 1 else 0

-- The four rounds of the loop.
unfoldable pub set_host_status_indicator : String → HostStatus → Gauges → Gauges
set_host_status_indicator hostname status g = record g {
  status_info = set_info hostname degraded (indicator degraded status) (
      set_info hostname in_use (indicator in_use status) (
        set_info hostname idle (indicator idle status)
          (set_info hostname offline (indicator offline status) g.status_info)));
}

abbrev pub removed : String → (String → Option ℕ) → String → Option ℕ
removed hostname gauge h = if str_eq h hostname then none else gauge h

unfoldable pub clear_host_metrics : String → Gauges → Gauges
clear_host_metrics hostname g = record g {
  cpu_percent = removed hostname g.cpu_percent;
  mem_percent = removed hostname g.mem_percent;
  gpu_percent = removed hostname g.gpu_percent;
}

-- After the status of a host is set, its indicator is 1 for that status and 0 for the three others,
-- and the indicators of the other hosts are as they were.
pub set_host_status_indicator_lem :
    (hostname : String) (status : HostStatus) (g : Gauges) (h : String) (s : HostStatus)
    → ((set_host_status_indicator hostname status g).status_info hostname s
        ≡ some (indicator s status))
      × (h ≢ hostname
          → (set_host_status_indicator hostname status g).status_info h s ≡ g.status_info h s)
unfolding set_host_status_indicator set_info
set_host_status_indicator_lem hostname status g h offline =
    (ground (arith, eq_iff hostname hostname), λ n. ground (arith, eq_iff h hostname))
set_host_status_indicator_lem hostname status g h idle =
    (ground (arith, eq_iff hostname hostname), λ n. ground (arith, eq_iff h hostname))
set_host_status_indicator_lem hostname status g h in_use =
    (ground (arith, eq_iff hostname hostname), λ n. ground (arith, eq_iff h hostname))
set_host_status_indicator_lem hostname status g h degraded =
    (ground (arith, eq_iff hostname hostname), λ n. ground (arith, eq_iff h hostname))
