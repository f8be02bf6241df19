-- ===== src/Domain/Audit.antt =====
-- broker/app/domain/audit.py: the audit log. The client's address, which no call gives, and the time of
-- an entry, which is the database's, are left out; `detail` keeps the keys of each call.
use smart_classroom.Prelude.{
  ℕ, Bool, true, false, ◌&&◌, ◌||◌, not, List, [], ◌∷◌, Option, none, some, String, Text, codes,
  leb, ◌==◌, length,
}
use smart_classroom.Domain.Rows.{HostStatus}

pub data Action : Type 0 where
  reservation_create reservation_cancel : Action
  token_revoke_previous token_issue token_consume token_verify token_verify_failure : Action
  host_status_change pairing_succeeded pairing_failed login_success login_failure logout : Action

pub data ActorKind : Type 0 where
  by_user by_system by_agent : ActorKind

pub data TargetKind : Type 0 where
  reservation_target token_target host_target : TargetKind

pub data AuditResult : Type 0 where
  success failure denied : AuditResult

pub data Detail : Type 0 where
  no_detail : Detail
  booked : (host_id starts_at ends_at : ℕ) (instant : Bool) → Detail
  canceled_by_admin : Bool → Detail
  revoked_count : ℕ → Detail
  issued : (reservation_id host_id expires_at : ℕ) (client : Option String) → Detail
  verified : (reservation_id : Option ℕ) (user_id : ℕ) → Detail
  refused : (reason : String) → Detail
  status_changed : (old new : HostStatus) (reason : String) → Detail
  paired : (reservation_id attempts : ℕ) → Detail
  pairing_refused : (reservation_id : ℕ) (reason : String) (attempts : ℕ) → Detail

-- What a call of `write_audit` gives.
pub record AuditEntry : Type 0 where
  pub action : Action
  pub actor_user_id : Option ℕ
  pub actor_kind : ActorKind
  pub target_kind : Option TargetKind
  pub target_id : Option ℕ
  pub result : AuditResult
  pub detail : Detail
  pub auth_provider : Option String

-- A row: the entry, and the id of the request that wrote it.
pub record AuditLog : Type 0 where
  pub entry : AuditEntry
  pub request_id : Option String

-- VARCHAR(64)
abbrev pub id_fits : Option String → Bool
id_fits none = true
id_fits (some s) = leb (length (codes s)) 64

-- JSONB has no character U+0000.
unfoldable pub has_nul : Text → Bool
has_nul [] = false
has_nul (c ∷ s) = (c == 0) || has_nul s

abbrev pub text_is_json : Option String → Bool
text_is_json none = true
text_is_json (some s) = not (has_nul (codes s))

-- The texts of a detail that come from outside.
abbrev pub detail_is_json : Detail → Bool
detail_is_json no_detail = true
detail_is_json (booked host_id starts_at ends_at instant) = true
detail_is_json (canceled_by_admin b) = true
detail_is_json (revoked_count n) = true
detail_is_json (issued reservation_id host_id expires_at client) = text_is_json client
detail_is_json (verified reservation_id user_id) = true
detail_is_json (refused reason) = text_is_json (some reason)
detail_is_json (status_changed old new reason) = true
detail_is_json (paired reservation_id attempts) = true
detail_is_json (pairing_refused reservation_id reason attempts) = true

abbrev pub is_storable : AuditLog → Bool
is_storable row = id_fits row.request_id && detail_is_json row.entry.detail

unfoldable pub all_storable : List AuditLog → Bool
all_storable [] = true
all_storable (row ∷ rows) = is_storable row && all_storable rows
