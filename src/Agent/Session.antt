-- ===== src/Agent/Session.antt =====
-- agent/smartclassroom_agent/collectors/session.py: whether Sunshine runs, who is signed in, and
-- what Sunshine answers about its stream.
use smart_classroom.Prelude.{
  ℕ, ◌+◌, Bool, true, false, ◌&&◌, ◌||◌, not, List, [], ◌∷◌, Option, none, some, ◌==◌, leb,
  if◌then◌else◌, is_none, Text, codes, text_eq, strip, lower, lower_code,
}
pub mod StateTag

-- A process of psutil: `info["name"]` where that is a string, and what `proc.name()` returns, none if
-- it raises one of the errors that are caught or is no string.
pub record Process : Type 0 where
  pub info_name : Option Text
  pub name_call : Option Text

-- `_process_name`
unfoldable pub process_name : Process → Text
process_name p = elim p.info_name [
  | some name ↦ name
  | none ↦ elim p.name_call [ some name ↦ name | none ↦ [] ]
]

-- `SUNSHINE_PROCESS_NAMES`
abbrev pub is_sunshine_name : Text → Bool
is_sunshine_name name = text_eq name (codes "sunshine") || text_eq name (codes "sunshine.exe")

unfoldable pub find_sunshine_running : List Process → Bool
find_sunshine_running [] = false
find_sunshine_running (p ∷ procs) =
    is_sunshine_name (lower (process_name p)) || find_sunshine_running procs

-- The rows of `psutil.users()` by their names, none for a name that is no string.
unfoldable pub active_user : List (Option Text) → Option Text
active_user [] = none
active_user (name ∷ rows) = name

-- A letter of a pattern under IGNORECASE, where the long s is a form of s.
abbrev pub fold_case : ℕ → ℕ
fold_case c = if c == 0x17f then 115 else lower_code c

-- The text behind a literal of the pattern, if it begins with it.
unfoldable pub after_literal : Text → Text → Option Text
after_literal [] s = some s
after_literal (l ∷ ls) [] = none
after_literal (l ∷ ls) (c ∷ s) =
    let rest = after_literal ls s in if fold_case c == l then rest else none

-- `[^<]+`: it takes all up to the next `<`, and less would leave no `<` behind it.
unfoldable pub run_of : Text → Text × Text
run_of [] = ([], [])
run_of (c ∷ s) = let (run, rest) = run_of s in if c == b'<' then ([], c ∷ s) else (c ∷ run, rest)

abbrev pub nonempty : Text → Option Text
nonempty [] = none
nonempty (c ∷ s) = some (c ∷ s)

-- The group of `<state>([^<]+)</state>`, matched at the beginning of the text.
unfoldable pub state_here : Text → Option Text
state_here s = elim (after_literal (codes "<state>") s) [
  | none ↦ none
  | some inner ↦ elim (after_literal (codes "</state>") (run_of inner).1) [
    | none ↦ none
    | some rest ↦ nonempty (run_of inner).0
  ]
]

-- `_STATE_RE.search(text)`: the leftmost match.
unfoldable pub search_state : Text → Option Text
search_state [] = none
search_state (c ∷ s) =
    let rest = search_state s in elim (state_here (c ∷ s)) [ some state ↦ some state | none ↦ rest ]

pub data ConnectionState : Type 0 where
  active disconnected unknown : ConnectionState

-- The answer of `/serverinfo`: any exception, or a response.
pub data InfoReply : Type 0 where
  no_answer : InfoReply
  answer : (status_code : ℕ) (text : Text) → InfoReply

unfoldable pub read_state : Text → ConnectionState
read_state state =
    if text_eq state (codes "SUNSHINE_SERVER_BUSY")
    then active
    else if text_eq state (codes "SUNSHINE_SERVER_FREE")
    then disconnected
    else unknown

-- `_query_sunshine_serverinfo`
unfoldable pub query_sunshine_serverinfo : InfoReply → ConnectionState
query_sunshine_serverinfo no_answer = unknown
query_sunshine_serverinfo (answer status_code text) =
    if status_code == 200
    then elim (search_state text) [ none ↦ unknown | some group ↦ read_state (strip group) ]
    else unknown

pub record SessionSnapshot : Type 0 where
  pub sunshine_running : Bool
  pub active_user : Option Text
  pub active_clients : ℕ
  pub connection_state : ConnectionState

-- `collect_session`; `has_cfg` tells whether a configuration is given, and the reply is that of the
-- request, which is only sent if Sunshine runs.
unfoldable pub collect_session :
    Bool → List Process → List (Option Text) → InfoReply → SessionSnapshot
collect_session has_cfg procs users reply =
    let running = find_sunshine_running procs in
    record {
      sunshine_running = running;
      active_user = active_user users;
      active_clients = 0;
      connection_state =
          if not running || not has_cfg then unknown else query_sunshine_serverinfo reply;
    }
