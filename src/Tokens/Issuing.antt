-- ===== src/Tokens/Issuing.antt =====
-- What a token that is issued has done to the table, and that it can be verified afterwards.
use smart_classroom.Prelude.{
  ℕ, suc, ◌+◌, ◌*◌, ◌≤◌, ◌<◌, ◌≡◌, refl, inl, inr, Bool, true, false, List, [], ◌∷◌, Option, none,
  some, arith, Option-cases, str_eq, eq_iff, String, exists_where, select_one, update_where,
  count_where, All, Bool-cases, if◌then◌else◌,
}
use smart_classroom.Domain.Time.{second}
use smart_classroom.Domain.Range.{bounds}
use smart_classroom.Domain.Settings.{Settings}
use smart_classroom.Domain.Rows.{
  User, Reservation, Token, Purpose, connect, agent, session, confirmed, same_purpose,
}
use smart_classroom.Domain.Db.{Db, ok}
use smart_classroom.Reservation.Access.{can_access, assert_can_access, reservation_bounds}
use smart_classroom.Tokens.Store.{is_valid_for, set_revoked, revoke_where, insert_token}
use smart_classroom.Tokens.Connect.{
  is_active_for, issue_connect_token, revoke_active_tokens_for_reservation,
}

pub record Inserted (db : Db) (jti : String) (user_id : ℕ) (host_id reservation_id : Option ℕ)
    (purpose : Purpose) (issued_at expires_at : ℕ) (t : Token) (db' : Db) : Type 0 where
  pub row : t ≡ record {
    id = db.next_token_id;
    jti = jti;
    user_id = user_id;
    host_id = host_id;
    reservation_id = reservation_id;
    purpose = purpose;
    issued_at = issued_at;
    expires_at = expires_at;
    consumed_at = none;
    revoked_at = none;
  }
  pub fresh : exists_where (λ x. str_eq x.jti jti) db.tokens ≡ false
  pub rows : db' ≡ record db { tokens = t ∷ db.tokens; next_token_id = suc db.next_token_id }

pub insert_token-Inserted :
    (jti : String) (u : ℕ) (h r : Option ℕ) (p : Purpose) (i e : ℕ) (db : Db) {t : Token} {db' : Db}
    → insert_token jti u h r p i e db ≡ ok (t, db')
    → Inserted db jti u h r p i e t db'
unfolding insert_token
insert_token-Inserted jti u h r p i e db q = ground arith

pub str_eq_refl : (s : String) → str_eq s s ≡ true
str_eq_refl s = (eq_iff s s).1 refl

same_purpose_refl : (p : Purpose) → same_purpose p p ≡ true
same_purpose_refl session = refl
same_purpose_refl connect = refl
same_purpose_refl agent = refl

-- A token that was just inserted is the one that its raw value is verified to.
pub Inserted-valid :
    (db db' : Db) (jti : String) (u : ℕ) (h r : Option ℕ) (p : Purpose) (i e now : ℕ) (t : Token)
    → Inserted db jti u h r p i e t db'
    → now < e
    → select_one (is_valid_for p jti now) db'.tokens ≡ some t
unfolding select_one
Inserted-valid db db' jti u h r p i e now t v b =
    ground (arith, str_eq_refl jti, same_purpose_refl p, v.row, v.rows)

abbrev pub revoked_db : ℕ → (Token → Bool) → Db → Db
revoked_db now p db = record db { tokens = update_where p (set_revoked now) db.tokens }

-- The bulk UPDATE leaves no row that its WHERE clause would match again.
pub update-none_left :
    (p : Token → Bool) (now : ℕ)
    → ((t : Token) → p (set_revoked now t) ≡ false)
    → (ts : List Token) → All (λ t. p t ≡ false) (update_where p (set_revoked now) ts)
unfolding update_where
update-none_left p now off [] = tt
update-none_left p now off (t ∷ ts) = elim (Bool-cases (p t)) [
  | inl e ↦ rw e (off t, update-none_left p now off ts)
  | inr e ↦ (rw (e, if◌then◌else◌) e, update-none_left p now off ts)
]

-- When `issue_connect_token` grants a token: to the owner or an admin, for a CONFIRMED
-- reservation, from the grace period before its start until its end.
pub record IsIssuable (settings : Settings) (now : ℕ) (user : User) (r : Reservation) : Type 0 where
  pub allowed : can_access r user ≡ true
  pub active : r.status ≡ confirmed
  pub starts_at : ℕ
  pub ends_at : ℕ
  pub window : bounds r.time_range ≡ some (starts_at, ends_at)
  pub open_at : starts_at ≤ now + settings.connect_token_grace_seconds * second
  pub open_until : now < ends_at

pub record Issued (digest : String → String) (settings : Settings) (now now_revoke : ℕ)
    (raw : String) (user : User) (r : Reservation) (db : Db) (t : Token) (n : ℕ) (db' : Db)
    : Type 0 where
  pub gate : IsIssuable settings now user r
  pub count : n ≡ count_where (is_active_for r.id) db.tokens
  pub inserted :
      Inserted
        (revoked_db now_revoke (is_active_for r.id) db)
        (digest raw)
        user.id
        (some r.host_id)
        (some r.id)
        connect
        now
        gate.ends_at
        t
        db'

module _ (digest : String → String) where
  -- A connect token is issued only to the owner or an admin, for a CONFIRMED reservation, from the grace
  -- period before its start until its end; the active ones before it are revoked and counted, and the
  -- new row carries the digest and expires at the end of the reservation.
  pub issue-Issued :
      (settings : Settings) (now now_revoke : ℕ) (raw : String) (user : User) (r : Reservation)
      (db db' : Db) (t : Token) (n : ℕ)
      → issue_connect_token digest settings now now_revoke raw user r db ≡ ok ((t, n), db')
      → Issued digest settings now now_revoke raw user r db t n db'
  unfolding issue_connect_token assert_can_access reservation_bounds revoke_where
      revoke_active_tokens_for_reservation
  issue-Issued settings now now_revoke raw user r db db' t n q =
      elim (Option-cases (bounds r.time_range)) [
        | inl e ↦ absurd (ground arith)
        | inr ((s, e), w) ↦
            let q' =
              insert_token (digest raw) user.id (some r.host_id) (some r.id) connect now e
                (revoked_db now_revoke (is_active_for r.id) db) in
            let ins : q' ≡ ok (t, db') = ground arith in
            record {
              gate = record {
                allowed = ground arith;
                active = ground arith;
                starts_at = s;
                ends_at = e;
                window = w;
                open_at = ground arith;
                open_until = ground arith;
              };
              count = ground arith;
              inserted =
                  insert_token-Inserted (digest raw) user.id (some r.host_id) (some r.id) connect
                    now e _ ins;
            }
      ]
