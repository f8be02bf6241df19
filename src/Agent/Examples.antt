-- ===== src/Agent/Examples.antt =====
-- The theorems on the agent at work on small inputs.
use smart_classroom.Prelude.{
  ℕ, ◌≤◌, ◌≡◌, refl, inr, true, false, List, [], ◌∷◌, Option, none, some, arith, ◌==◌, leb, ◌&&◌,
  if◌then◌else◌, is_space, Text, codes, text_eq, strip, lstrip, rstrip,
}
use smart_classroom.Agent.Session.{
  answer, no_answer, active, after_literal, run_of, state_here, search_state, read_state,
  query_sunshine_serverinfo,
}
use smart_classroom.Agent.Session.StateTag.{Finds, search_state-Finds}
use smart_classroom.Agent.Heartbeat.{Around, no_reply, run_heartbeat_loop}
use smart_classroom.Agent.Heartbeat.Ending.{sent, run_heartbeat_loop_stops}
use smart_classroom.Agent.Config.{given, absent}
use smart_classroom.Agent.Cli.{ConfigFile, mapping}
use smart_classroom.Agent.Gpu.{is_line_break, parse_nvidia_smi}
use smart_classroom.Agent.Gpu.Table.{
  IsCell, IsRow, AllRows, Row, print_table, readings, parse_nvidia_smi-print_table,
}

-- What Sunshine answers during a stream.
abbrev busy : Text
busy = codes "<root><State>SUNSHINE_SERVER_BUSY </state></root>"

search_state-Finds_example : Finds busy (search_state busy)
search_state-Finds_example = search_state-Finds busy

reported : query_sunshine_serverinfo (answer 200 busy) ≡ active
unfolding query_sunshine_serverinfo search_state state_here after_literal run_of read_state text_eq
    strip lstrip rstrip
reported = refl

-- A broker that does not answer, and an event that is set during the second wait.
abbrev around : Around ℕ ℕ ℕ ℕ
around = record {
  sources = λ cycles. record {
    boot_time = some 7;
    system = some cycles;
    processes = [];
    users = [];
    info_reply = no_answer;
    gpu = [];
    rtt_ms = none;
  };
  answers = λ cycles payload. no_reply;
  is_set = λ cycles. false;
  is_woken = λ cycles. cycles == 1;
}

run_heartbeat_loop_stops_example :
    (count : ℕ) × (run_heartbeat_loop (codes "1") false around 5 true none
      ≡ some (count, sent (codes "1") false around 0 count))
    × (count ≤ 2)
run_heartbeat_loop_stops_example =
    run_heartbeat_loop_stops (codes "1") false around true none 1 (inr (refl, inr refl)) 5
      (omega arith)

-- Paths as they are on Windows, one of them with a space.
abbrev python : Text
python = codes "C:/Program Files/Python/python.exe"

abbrev config : Text
config = codes "C:/agent.yaml"

-- A table of two cards, the second without a reading of its temperature.
abbrev cards : List Row
cards =
    record {
      name = codes "A";
      util = codes "7";
      used = codes "1";
      total = codes "2";
      temp = codes "9";
    }
    ∷ record {
      name = codes "B";
      util = codes "7";
      used = codes "1";
      total = codes "2";
      temp = codes "N";
    }
    ∷ []

-- A reader of numbers of one digit, in the place of `float`.
abbrev digit : Text → Option ℕ
digit (c ∷ []) = if leb 48 c && leb c 57 then some c else none
digit s = none

cell : (c : ℕ) → is_space c ≡ false → (c == 44) ≡ false → is_line_break c ≡ false → IsCell (c ∷ [])
unfolding rstrip
cell c dark no_comma no_break = record {
  begins = dark;
  ends = rw (dark, if◌then◌else◌) refl;
  no_comma = (no_comma, tt);
  no_break = (no_break, tt);
}

row :
    (r : Row)
    → IsCell r.name
    → IsCell r.util
    → IsCell r.used
    → IsCell r.total
    → IsCell r.temp
    → IsRow r
row r a b c d e = record { name = a; util = b; used = c; total = d; temp = e }

cards-AllRows : AllRows cards
cards-AllRows = (
  row _ (cell _ refl refl refl) (cell _ refl refl refl) (cell _ refl refl refl)
      (cell _ refl refl refl) (cell _ refl refl refl),
  (
    row _ (cell _ refl refl refl) (cell _ refl refl refl) (cell _ refl refl refl)
        (cell _ refl refl refl) (cell _ refl refl refl),
    tt,
  ),
)

parse_nvidia_smi-print_table_example :
    parse_nvidia_smi digit (λ used total. used) (print_table cards)
    ≡ readings digit (λ used total. used) cards
parse_nvidia_smi-print_table_example =
    parse_nvidia_smi-print_table digit (λ used total. used) cards cards-AllRows

-- A configuration file with what has no default.
abbrev config_file : ConfigFile
config_file = mapping (record {
  broker_url = given (codes "http://broker/");
  host_id = given 1;
  agent_token = given "0123456789abcdef";
  interval_seconds = absent;
  log_level = absent;
  sunshine_serverinfo_url = absent;
  sunshine_query_timeout_seconds = absent;
})

abbrev any_url : Text → Option Text
any_url s = some s
