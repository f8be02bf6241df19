-- ===== src/Domain/Time.antt =====
-- Python's `datetime` and `timedelta`, in whole microseconds, as the program uses them.
-- `wall` counts the wall clock's microseconds from a day 0 in the far past; a zone is a fixed
-- offset, which is all that ISO timestamps and PostgreSQL carry.
use smart_classroom.Prelude.{
  ℕ, ◌+◌, ◌-◌, ◌/◌, ◌%◌, Bool, false, ◌&&◌, ◌||◌, Option, none, some, ◌==◌, is_none, if◌then◌else◌,
}

abbrev pub second : ℕ
second = 1_000_000

abbrev pub minute : ℕ
minute = 60_000_000

abbrev pub half_hour : ℕ
half_hour = 1_800_000_000

abbrev pub day : ℕ
day = 86_400_000_000

pub data Offset : Type 0 where
  at_utc : Offset
  ahead : ℕ → Offset
  behind : ℕ → Offset

pub record DateTime : Type 0 where
  pub wall : ℕ
  pub tzinfo : Option Offset

abbrev pub shift : ℕ → Option Offset → ℕ
shift wall none = wall
shift wall (some at_utc) = wall
shift wall (some (ahead m)) = wall - m
shift wall (some (behind m)) = wall + m

-- The point on the UTC axis, by which aware datetimes are compared and subtracted.
abbrev pub instant : DateTime → ℕ
instant dt = shift dt.wall dt.tzinfo

abbrev pub utc : ℕ → DateTime
utc t = record { wall = t; tzinfo = some at_utc }

abbrev pub minute_of : ℕ → ℕ
minute_of wall = wall / minute % 60

abbrev pub second_of : ℕ → ℕ
second_of wall = wall / second % 60

abbrev pub microsecond_of : ℕ → ℕ
microsecond_of wall = wall % second

abbrev pub is_naive : DateTime → Bool
is_naive dt = is_none dt.tzinfo

-- `dt.replace(hour=0, minute=0, second=0, microsecond=0)`
abbrev pub start_of_day : DateTime → DateTime
start_of_day dt = record dt { wall = dt.wall - dt.wall % day }

-- `dt + timedelta(...)`
abbrev pub add_delta : DateTime → ℕ → DateTime
add_delta dt d = record dt { wall = dt.wall + d }

-- `_is_grid_aligned`
unfoldable pub is_grid_aligned : DateTime → ℕ → Bool
is_grid_aligned dt slot_minutes =
    if is_naive dt
    then false
    else if slot_minutes == 30
    then (minute_of dt.wall == 0 || minute_of dt.wall == 30)
      && (second_of dt.wall == 0 && microsecond_of dt.wall == 0)
    else (minute_of dt.wall % slot_minutes == 0)
      && (second_of dt.wall == 0 && microsecond_of dt.wall == 0)
