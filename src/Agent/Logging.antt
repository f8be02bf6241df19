-- ===== src/Agent/Logging.antt =====
-- agent/smartclassroom_agent/logging.py: the set-up of the root logger and of structlog.
use smart_classroom.Prelude.{
  ℕ, ◌+◌, ◌≡◌, refl, List, [], ◌∷◌, ◌++◌, Option, none, some, arith, ◌==◌, ==_refl, if◌then◌else◌,
  Text,
}

-- A handler by its identity, and the level that it has.
pub record Handler : Type 0 where
  pub id : ℕ
  pub level : ℕ

-- The state of `logging` and `structlog` in the process; `next_id` is the identity of the next
-- handler that is made.
pub record Logging : Type 0 where
  pub handlers : List Handler
  pub root_level : ℕ
  pub structlog_level : Option ℕ
  pub next_id : ℕ

-- `root.removeHandler(handler)`
unfoldable pub remove_handler : ℕ → List Handler → List Handler
remove_handler id [] = []
remove_handler id (h ∷ rest) =
    let kept = remove_handler id rest in if h.id == id then rest else h ∷ kept

-- The loop over the copy of the list.
unfoldable pub remove_all : List Handler → List Handler → List Handler
remove_all [] handlers = handlers
remove_all (h ∷ copy) handlers = remove_all copy (remove_handler h.id handlers)

abbrev or_else : {A : Type 0} → Option A → A → A
or_else none d = d
or_else (some a) d = a

-- `attribute` is what the module `logging` has under a name in capitals; 20 is `logging.INFO`.
unfoldable pub configure_logging : (Text → Option ℕ) → Text → Logging → Logging
configure_logging attribute level s =
    let log_level = or_else (attribute level) 20 in
    record {
      handlers =
          remove_all s.handlers s.handlers ++ record { id = s.next_id; level = log_level } ∷ [];
      root_level = log_level;
      structlog_level = some log_level;
      next_id = s.next_id + 1;
    }

remove_all_self : (handlers : List Handler) → remove_all handlers handlers ≡ []
unfolding remove_all remove_handler
remove_all_self [] = refl
remove_all_self (h ∷ rest) = rw (==_refl h.id, if◌then◌else◌) (remove_all_self rest)

-- However often logging is set up, the root has one handler, and the last level that was given: the
-- state is that of one set-up, but for the identity of the handler.
pub configure_logging-last :
    (attribute : Text → Option ℕ) (a b : Text) (s : Logging)
    → configure_logging attribute b (configure_logging attribute a s)
      ≡ configure_logging attribute b (record s { next_id = s.next_id + 1 })
unfolding configure_logging
configure_logging-last attribute a b s =
    ground (
      arith,
      remove_all_self s.handlers,
      remove_all_self (configure_logging attribute a s).handlers,
    )
