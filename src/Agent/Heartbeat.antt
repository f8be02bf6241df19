-- ===== src/Agent/Heartbeat.antt =====
-- agent/smartclassroom_agent/heartbeat.py: the payload of a heartbeat and the loop that sends one per
-- interval, with `post_heartbeat` of client.py and the commands `run` and `doctor` of cli.py.
--
-- What happens around the loop is given by a function of the number of cycles done: what the
-- collectors see, what the broker answers, and when `stop_event` is set. An error is `none`.
use smart_classroom.Prelude.{
  ℕ, suc, zero, ◌+◌, Bool, true, false, ◌&&◌, List, [], ◌∷◌, Option, none, some, leb, Text,
  if◌then◌else◌,
}
use smart_classroom.Agent.Session.{Process, InfoReply, SessionSnapshot, collect_session}
pub mod Ending

-- The answer to a request: an exception, or a response with the JSON object of its body, none if the
-- body is no JSON object.
pub data HttpReply {ℓ} (A : Type ℓ) : Type ℓ where
  no_reply : HttpReply A
  reply : (status_code : ℕ) (json : Option A) → HttpReply A

-- What `raise_for_status` lets pass, which is `is_success` of httpx.
abbrev pub is_success : ℕ → Bool
is_success status_code = leb 200 status_code && leb status_code 299

-- `post_heartbeat`, once the request is answered.
unfoldable pub post_heartbeat {ℓ} : {A : Type ℓ} → HttpReply A → Option A
post_heartbeat no_reply = none
post_heartbeat (reply status_code json) = if is_success status_code then json else none

-- What the collectors see: `System`, `Gpu` and `Rtt` are the snapshots of system.py, gpu.py and rtt.py.
module _ (System Gpu Rtt : Type 0) where
  pub record Sources : Type 0 where
    pub boot_time : Option ℕ
    pub system : Option System
    pub processes : List Process
    pub users : List (Option Text)
    pub info_reply : InfoReply
    pub gpu : List Gpu
    pub rtt_ms : Option Rtt

  pub record Payload : Type 0 where
    pub agent_version : Text
    pub boot_time : ℕ
    pub system : System
    pub session : SessionSnapshot
    pub gpu : List Gpu
    pub agent_self_rtt_ms : Option Rtt

module _ {System Gpu Rtt : Type 0} (version : Text) where
  -- `has_cfg` tells whether `cfg` is given.
  unfoldable pub build_heartbeat_payload :
      Bool → Sources System Gpu Rtt → Option (Payload System Gpu Rtt)
  build_heartbeat_payload has_cfg s = elim s.system [
    | none ↦ none
    | some system ↦ elim s.boot_time [
      | none ↦ none
      | some boot_time ↦ some (record {
        agent_version = version;
        boot_time = boot_time;
        system = system;
        session = collect_session has_cfg s.processes s.users s.info_reply;
        gpu = s.gpu;
        agent_self_rtt_ms = s.rtt_ms;
      })
    ]
  ]

-- One line of the log: the answer of a heartbeat that arrived, or a warning.
pub data Entry {ℓ} (A : Type ℓ) : Type ℓ where
  heartbeat_ok : A → Entry A
  heartbeat_failed : Entry A

-- The world around the loop, in the cycle of each number.
pub record Around (System Gpu Rtt A : Type 0) : Type 0 where
  pub sources : ℕ → Sources System Gpu Rtt
  pub answers : ℕ → Payload System Gpu Rtt → HttpReply A
  pub is_set : ℕ → Bool
  pub is_woken : ℕ → Bool

abbrev pub reached : Option ℕ → ℕ → Bool
reached none cycles = false
reached (some max_cycles) cycles = leb max_cycles cycles

abbrev pub logged {ℓ} :
    {A : Type ℓ} → Entry A → Option (ℕ × List (Entry A)) → Option (ℕ × List (Entry A))
logged entry none = none
logged entry (some (cycles, log)) = some (cycles, entry ∷ log)

module _ {System Gpu Rtt A : Type 0} (version : Text) (has_cfg : Bool)
    (w : Around System Gpu Rtt A) where
  -- The body of the `try`, with its handler.
  unfoldable pub send_heartbeat : ℕ → Entry A
  send_heartbeat cycles = elim (build_heartbeat_payload version has_cfg (w.sources cycles)) [
    | none ↦ heartbeat_failed
    | some payload ↦ elim (post_heartbeat (w.answers cycles payload)) [
      | none ↦ heartbeat_failed
      | some response ↦ heartbeat_ok response
    ]
  ]

  -- The `while True` of `run_heartbeat_loop`: the number of cycles that it returns and the log, none
  -- if the fuel is spent. `has_event` tells whether `stop_event` is given.
  unfoldable pub heartbeat_cycles : ℕ → Bool → Option ℕ → ℕ → Option (ℕ × List (Entry A))
  heartbeat_cycles zero has_event max_cycles cycles = none
  heartbeat_cycles (suc fuel) has_event max_cycles cycles =
      let rest = heartbeat_cycles fuel has_event max_cycles (cycles + 1) in
      if has_event && w.is_set cycles
      then some (cycles, [])
      else let entry = send_heartbeat cycles in
        if reached max_cycles (cycles + 1)
        then some (cycles + 1, entry ∷ [])
        else if has_event && w.is_woken cycles
        then some (cycles + 1, entry ∷ [])
        else logged entry rest

  unfoldable pub run_heartbeat_loop : ℕ → Bool → Option ℕ → Option (ℕ × List (Entry A))
  run_heartbeat_loop fuel has_event max_cycles = heartbeat_cycles fuel has_event max_cycles 0

  -- `run` of cli.py, which gives neither an event nor a number of cycles.
  unfoldable pub run_cmd : ℕ → Option (ℕ × List (Entry A))
  run_cmd fuel = run_heartbeat_loop fuel false none

  -- `doctor` of cli.py: the number is the one in "sent {cycles} heartbeat(s)".
  unfoldable pub doctor_cmd : ℕ → Option (ℕ × List (Entry A))
  doctor_cmd fuel = run_heartbeat_loop fuel false (some 1)
