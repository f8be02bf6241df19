-- ===== src/Pairing/Examples.antt =====
-- The retry loop at work: Sunshine is down at first, then takes the PIN.
use smart_classroom.Prelude.{ℕ, Text, codes, true, ◌==◌, if◌then◌else◌}
use smart_classroom.Pairing.Push.{Reply, transport_error, response}

abbrev slow_start : ℕ → Reply
slow_start n = if n == 1 then transport_error else response 200 true

-- A writer of integers, in the place of Python's.
abbrev digits : ℕ → Text
digits n = codes "7"
