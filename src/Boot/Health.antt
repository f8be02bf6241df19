-- ===== src/Boot/Health.antt =====
-- broker/app/api/v1/health.py and meta.py: whether the broker runs, whether its database answers,
-- and its version. The version is a setting that nothing else reads, so it is an argument.
use Prim.Native.String.{◌++◌}
use smart_classroom.Prelude.{ℕ, Option, none, some, String}

pub record Readiness : Type 0 where
  pub status_code : ℕ
  pub status : String
  pub db : String

unfoldable pub healthz : String
healthz = "ok"

-- `readyz`: the argument is the name of the exception that `SELECT 1` raised, if any.
unfoldable pub readyz : Option String → Readiness
readyz none = record { status_code = 200; status = "ready"; db = "ok" }
readyz (some exception) = record {
  status_code = 503;
  status = "not_ready";
  db = "fail: " ++ exception;
}
