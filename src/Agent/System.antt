-- ===== src/Agent/System.antt =====
-- agent/smartclassroom_agent/collectors/system.py and collectors/rtt.py: the load of the machine, and
-- the time that the broker takes to answer `/healthz`.
--
-- Floating-point numbers are a type `F`: `round` is `round(x, 2)`, and `whole_seconds now boot` is
-- `int(now - boot)`. What psutil and the request give is an argument.
use smart_classroom.Prelude.{ℕ, List, map, Option, none, some, ◌==◌, if◌then◌else◌}

-- `psutil.getloadavg`: it is not there, raises an OSError, or gives numbers.
pub data LoadAverage (F : Type 0) : Type 0 where
  no_getloadavg os_error : LoadAverage F
  loads : List F → LoadAverage F

pub record Psutil (F : Type 0) : Type 0 where
  pub boot_time : F
  pub cpu_percent : F
  pub memory_percent : F
  pub getloadavg : LoadAverage F

-- `uptime_sec` may come out negative, if the clock was set back.
pub record SystemSnapshot (F Z : Type 0) : Type 0 where
  pub cpu_pct : F
  pub mem_pct : F
  pub uptime_sec : Z
  pub load_avg : Option (List F)

-- The GET of `measure_rtt`: one of the errors that it catches, or the status code of a response.
pub data HealthReply : Type 0 where
  failed : HealthReply
  answered : (status_code : ℕ) → HealthReply

module _ {F Z : Type 0} (round : F → F) (whole_seconds : F → F → Z) where
  -- `_load_avg`
  unfoldable pub load_avg : LoadAverage F → Option (List F)
  load_avg no_getloadavg = none
  load_avg os_error = none
  load_avg (loads numbers) = some (map round numbers)

  unfoldable pub collect_system : F → Psutil F → SystemSnapshot F Z
  collect_system now psutil = record {
    cpu_pct = psutil.cpu_percent;
    mem_pct = psutil.memory_percent;
    uptime_sec = whole_seconds now psutil.boot_time;
    load_avg = load_avg psutil.getloadavg;
  }

-- `elapsed_ms` is the time between the two readings of `perf_counter`.
unfoldable pub measure_rtt : {F : Type 0} → (F → F) → F → HealthReply → Option F
measure_rtt round elapsed_ms failed = none
measure_rtt round elapsed_ms (answered status_code) =
    if status_code == 200 then some (round elapsed_ms) else none
