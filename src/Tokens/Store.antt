-- ===== src/Tokens/Store.antt =====
-- The `tokens` table as the three token services share it: the columns they test, the bulk
-- revocation, and the INSERT with its constraints (jti is UNIQUE; users, hosts and reservations
-- are foreign keys). The database holds only `sha256(raw)`, which `digest` stands for.
use smart_classroom.Prelude.{
  ℕ, suc, Bool, false, ◌&&◌, ◌∷◌, Option, none, some, ltb, is_none, str_eq, String, update_where,
  count_where, exists_where,
}
use smart_classroom.Domain.Rows.{Token, Purpose, same_purpose}
use smart_classroom.Domain.Db.{
  Db, M, pure, ◌>>=◌, ◌>>◌, raise_if, gets, modify, get_user, get_host, get_reservation_row,
  database_error, foreign_key, unique_key,
}

-- `revoked_at IS NULL AND consumed_at IS NULL`
abbrev pub is_open : Token → Bool
is_open t = is_none t.revoked_at && is_none t.consumed_at

-- The WHERE clause by which a raw token is verified.
abbrev pub is_valid_for : Purpose → String → ℕ → Token → Bool
is_valid_for purpose jti now t =
    str_eq t.jti jti && (same_purpose t.purpose purpose && (is_open t && ltb now t.expires_at))

abbrev pub set_revoked : ℕ → Token → Token
set_revoked now t = record t { revoked_at = some now }

abbrev pub set_consumed : ℕ → Token → Token
set_consumed now t = record t { consumed_at = some now }

-- `UPDATE tokens SET revoked_at = now WHERE ...`, with its row count.
unfoldable pub revoke_where : ℕ → (Token → Bool) → M ℕ
revoke_where now p = do
  n ← gets (λ db. count_where p db.tokens)
  modify (λ db. record db { tokens = update_where p (set_revoked now) db.tokens })
  pure n

-- A nullable foreign key.
abbrev pub is_dangling : {A : Type 0} → (ℕ → Db → Option A) → Option ℕ → Db → Bool
is_dangling get none db = false
is_dangling get (some i) db = is_none (get i db)

-- `db.add(token)` and `db.flush()`; the id comes from the table's sequence.
unfoldable pub insert_token : String → ℕ → Option ℕ → Option ℕ → Purpose → ℕ → ℕ → M Token
insert_token jti user_id host_id reservation_id purpose issued_at expires_at = do
  new_id ← gets (λ db. db.next_token_id)
  let token : Token = record {
    id = new_id;
    jti = jti;
    user_id = user_id;
    host_id = host_id;
    reservation_id = reservation_id;
    purpose = purpose;
    issued_at = issued_at;
    expires_at = expires_at;
    consumed_at = none;
    revoked_at = none;
  }
  raise_if (← gets (λ db. exists_where (λ t. str_eq t.jti jti) db.tokens))
      (database_error unique_key)
  raise_if (← gets (λ db. is_none (get_user user_id db))) (database_error foreign_key)
  raise_if (← gets (is_dangling get_host host_id)) (database_error foreign_key)
  raise_if (← gets (is_dangling get_reservation_row reservation_id)) (database_error foreign_key)
  modify (λ db. record db { tokens = token ∷ db.tokens; next_token_id = suc new_id })
  pure token
