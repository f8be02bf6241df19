-- ===== src/Domain/Db.antt =====
-- The database as a service sees it inside one transaction, and the monad of the services. A
-- service that raises leaves nothing behind: the router has not committed, and the session that
-- `get_db` closes rolls back. So a failed call has no state.
use smart_classroom.Prelude.{
  String, if◌then◌else◌, ◌≡◌, refl, subst, ◌⊎◌, inl, inr, arith, ℕ, Bool, true, false, List, ◌∷◌,
  Option, none, some, ◌==◌, select_one,
}
use smart_classroom.Domain.Rows.{User, Host, Reservation, Token}
use smart_classroom.Domain.Audit.{AuditEntry, AuditLog, all_storable}

pub record Db : Type 0 where
  pub users : List User
  pub hosts : List Host
  pub reservations : List Reservation
  pub tokens : List Token
  pub audit_logs : List AuditLog
  pub next_user_id : ℕ
  pub next_host_id : ℕ
  pub next_reservation_id : ℕ
  pub next_token_id : ℕ
  -- The contextvar `request_id` of the request that the session serves.
  pub request_id : Option String

-- The reasons of `InvalidReservationWindowError`.
pub data WindowFault : Type 0 where
  naive_datetime unaligned_start unaligned_end not_before too_long in_the_past : WindowFault
  beyond_lookahead unaligned_bounds unknown_host half_open_query : WindowFault

pub data QuotaLimit : Type 0 where
  concurrent daily_minutes : QuotaLimit

-- The reasons of `InvalidConnectWindowError`.
pub data ConnectFault : Type 0 where
  reservation_not_active too_early expired_window : ConnectFault

pub data DbFault : Type 0 where
  range_bounds foreign_key unique_key data_error : DbFault

pub data Error : Type 0 where
  invalid_window : WindowFault → Error
  quota_exceeded : (limit : QuotaLimit) (current maximum : ℕ) → Error
  reservation_conflict not_owner reservation_not_found host_not_found host_not_available : Error
  invalid_connect : ConnectFault → Error
  database_error : DbFault → Error
  http_error : (status_code : ℕ) → Error
  runtime_error : Error

pub data Result {ℓ} (A : Type ℓ) : Type ℓ where
  ok : A → Result A
  err : Error → Result A

abbrev pub M : Type 0 → Type 0
M A = Db → Result (A × Db)

abbrev pub pure : {A : Type 0} → A → M A
pure a db = ok (a, db)

abbrev pub raise : {A : Type 0} → Error → M A
raise e db = err e

infixl 5 ◌>>=◌ ◌>>◌
abbrev pub ◌>>=◌ : {A B : Type 0} → M A → (A → M B) → M B
◌>>=◌ m f db = elim (m db) [ ok r ↦ f r.0 r.1 | err e ↦ err e ]

abbrev pub ◌>>◌ : {A B : Type 0} → M A → M B → M B
m >> k = m >>= λ _. k

abbrev pub raise_if : Bool → Error → M (Unit {0})
raise_if true e db = err e
raise_if false e db = ok (tt, db)

abbrev pub gets : {A : Type 0} → (Db → A) → M A
gets f db = ok (f db, db)

abbrev pub modify : (Db → Db) → M (Unit {0})
modify f db = ok (tt, f db)

abbrev pub or_raise : {A : Type 0} → Option A → Error → M A
or_raise none e db = err e
or_raise (some a) e db = ok (a, db)

-- `db.get(Table, id)`
abbrev pub get_user : ℕ → Db → Option User
get_user i db = select_one (λ r. r.id == i) db.users

abbrev pub get_host : ℕ → Db → Option Host
get_host i db = select_one (λ r. r.id == i) db.hosts

abbrev pub get_reservation_row : ℕ → Db → Option Reservation
get_reservation_row i db = select_one (λ r. r.id == i) db.reservations

-- The row of an entry that is written now.
abbrev pub log_row : AuditEntry → Db → AuditLog
log_row entry db = record { entry = entry; request_id = db.request_id }

-- `write_audit`: it only adds to the session. The database may refuse the row when it is flushed,
-- which is at the commit at the latest.
abbrev pub write_audit : AuditEntry → M (Unit {0})
write_audit entry db = ok (tt, record db { audit_logs = log_row entry db ∷ db.audit_logs })

-- `await db.commit()`, after which the new rows of the audit log are stored with those before them; a
-- value that its column does not take is a DataError. The rows of the other tables were flushed before.
unfoldable pub commit_session : M (Unit {0})
commit_session db =
    if all_storable db.audit_logs then ok (tt, db) else err (database_error data_error)

-- An endpoint's body, then its commit.
unfoldable pub committed : {A : Type 0} → M A → M A
committed m = do a ← m; commit_session; pure a

pub Result-cases {ℓ} :
    {A : Type ℓ} (x : Result A) → ((a : A) × (x ≡ ok a)) ⊎ ((e : Error) × (x ≡ err e))
Result-cases (ok a) = inl (a, refl)
Result-cases (err e) = inr (e, refl)

-- Inversion of a successful bind, for proofs where the parts stay shut.
pub bind-ok :
    {A B : Type 0} (m : M A) (f : A → M B) (db : Db) {r : B × Db}
    → (m >>= f) db ≡ ok r
    → (p : A × Db) × (m db ≡ ok p) × (f p.0 p.1 ≡ ok r)
bind-ok m f db h = elim (Result-cases (m db)) [
  | inl (p, e) ↦ (p, e, rw (e, ◌>>=◌) at h)
  | inr (x, e) ↦ ground arith
]

-- The same for a first part that only reads.
pub bind-same :
    {A B : Type 0} (m : M A) (f : A → M B) (db : Db) {r : B × Db}
    → ((a : A) (db' : Db) → m db ≡ ok (a, db') → db' ≡ db)
    → (m >>= f) db ≡ ok r
    → (a : A) × (m db ≡ ok (a, db)) × (f a db ≡ ok r)
bind-same m f db {r} same h =
    let (p, e, k) = bind-ok m f db h in
    let back : p.1 ≡ db = same p.0 p.1 e in
    (p.0, subst (λ d. m db ≡ ok (p.0, d)) back e, subst (λ d. f p.0 d ≡ ok r) back k)

pub raise_if-ok :
    (b : Bool) (e : Error) (db : Db) {r : Unit {0} × Db}
    → raise_if b e db ≡ ok r
    → (b ≡ false) × (r.1 ≡ db)
raise_if-ok true e db h = ground arith
raise_if-ok false e db h = ground arith
