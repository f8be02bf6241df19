-- ===== src/System/Answers.antt =====
-- What the endpoint that issues a connect token answers in the states that the broker reaches.
use smart_classroom.Prelude.{
  ℕ, ◌+◌, ◌*◌, ◌≡◌, ◌≢◌, refl, ◌∙◌, ◌⊎◌, inl, inr, Bool, true, false, Option, none, some, arith,
  String, str_eq, ltb, leb, is_none, Bool-cases, Option-cases, exists_where, update_where, List, [],
  ◌∷◌, count_where, le→ltb, ◌≤◌, ◌<◌,
}
use smart_classroom.Domain.Time.{second}
use smart_classroom.Domain.Range.{bounds}
use smart_classroom.Domain.Settings.{Settings}
use smart_classroom.Domain.Rows.{User, Host, Reservation, Token, Purpose, connect, is_confirmed}
use smart_classroom.Domain.Db.{
  Db, Error, ConnectFault, invalid_connect, http_error, ok, err, Result, get_user, get_host,
  get_reservation_row, Result-cases,
}
use smart_classroom.Reservation.Access.{can_access, assert_can_access, reservation_bounds}
use smart_classroom.Tokens.Store.{insert_token, revoke_where, set_revoked}
use smart_classroom.Tokens.Issuing.{revoked_db}
use smart_classroom.Tokens.Connect.{
  is_active_for, issue_connect_token, revoke_active_tokens_for_reservation,
}
use smart_classroom.Api.Reservations.{ConnectResponse, issue_connect_token_response}
use smart_classroom.System.Reach.{Reach}

-- The call succeeds, or fails with one of the errors.
abbrev pub Answers : {A : Type 0} → (Error → Type 0) → Result A → Type 0
Answers {A} P result = ((a : A) × (result ≡ ok a)) ⊎ ((e : Error) × (result ≡ err e) × P e)

-- One of the three reasons for which a connect token is refused.
abbrev pub IsRefusal : Error → Type 0
IsRefusal e = (f : ConnectFault) × (e ≡ invalid_connect f)

jti_kept :
    (j : String) (p : Token → Bool) (now : ℕ) (ts : List Token)
    → exists_where (λ t. str_eq t.jti j) (update_where p (set_revoked now) ts)
      ≡ exists_where (λ t. str_eq t.jti j) ts
unfolding exists_where update_where
jti_kept j p now [] = refl
jti_kept j p now (t ∷ ts) = elim (Bool-cases (p t)) [
  | inl e ↦ ground (arith, e, jti_kept j p now ts)
  | inr e ↦ ground (arith, e, jti_kept j p now ts)
]

-- With a new digest, and with rows for its foreign keys, the token is inserted.
insert_total :
    (j : String) (u h r : ℕ) (p : Purpose) (i e : ℕ) (db : Db)
    → exists_where (λ t. str_eq t.jti j) db.tokens ≡ false
    → is_none (get_user u db) ≡ false
    → is_none (get_host h db) ≡ false
    → is_none (get_reservation_row r db) ≡ false
    → (a : Token × Db) × (insert_token j u (some h) (some r) p i e db ≡ ok a)
unfolding insert_token
insert_total j u h r p i e db new user host row =
    elim (Result-cases (insert_token j u (some h) (some r) p i e db)) [
      | inl found ↦ found
      | inr (x, q) ↦ absurd (ground (arith, new, user, host, row, q))
    ]

module _ (digest : String → String) (settings : Settings) (now revoking : ℕ) (raw : String)
    (user : User) (r : Reservation) (db : Db)
    (new : exists_where (λ t. str_eq t.jti (digest raw)) db.tokens ≡ false)
    (known : is_none (get_user user.id db) ≡ false) (host : is_none (get_host r.host_id db) ≡ false)
    (row : is_none (get_reservation_row r.id db) ≡ false) (allowed : can_access r user ≡ true)
    (s e : ℕ) (window : bounds r.time_range ≡ some (s, e)) where
  closed : Db
  closed = revoked_db revoking (is_active_for r.id) db

  -- Within its window a confirmed reservation gets its token.
  issue_grants :
      is_confirmed r.status ≡ true
      → ltb (now + settings.connect_token_grace_seconds * second) s ≡ false
      → leb e now ≡ false
      → (a : (Token × ℕ) × Db) × (issue_connect_token digest settings now revoking raw user r db
          ≡ ok a)
  unfolding issue_connect_token assert_can_access reservation_bounds revoke_where
      revoke_active_tokens_for_reservation closed
  issue_grants c f l =
      let fresh = jti_kept (digest raw) (is_active_for r.id) revoking db.tokens ∙ new in
      let (a, q) =
        insert_total (digest raw) user.id r.host_id r.id connect now e closed fresh known host
          row in
      (
        ((a.0, count_where (is_active_for r.id) db.tokens), a.1),
        ground (arith, allowed, c, window, f, l, q),
      )

  -- A token that is issued reaches the caller.
  response_of :
      (client : Option String) (h : Host) (a : (Token × ℕ) × Db)
      → get_host r.host_id db ≡ some h
      → issue_connect_token digest settings now revoking raw user r db ≡ ok a
      → (b : ConnectResponse × Db) × (issue_connect_token_response digest settings now revoking raw
            user r client db
          ≡ ok b)
  unfolding issue_connect_token_response
  response_of client h a f q =
      elim (Result-cases
        (issue_connect_token_response digest settings now revoking raw user r client db)) [
          | inl found ↦ found
          | inr (x, w) ↦ absurd (ground (arith, f, q, w))
        ]

  pub response_grants :
      (client : Option String)
      → is_confirmed r.status ≡ true
      → s ≤ now + settings.connect_token_grace_seconds * second
      → now < e
      → (b : ConnectResponse × Db) × (issue_connect_token_response digest settings now revoking raw
            user r client db
          ≡ ok b)
  response_grants client c f l =
      let (a, q) = issue_grants c (le→ltb _ s f) (ground (arith, l)) in
      elim (Option-cases (get_host r.host_id db)) [
        | inl n ↦ absurd (ground (arith, host, n))
        | inr (h, g) ↦ response_of client h a g q
      ]

pub not_none : {A : Type 0} (o : Option A) → o ≢ none → is_none o ≡ false
not_none none n = absurd (n refl)
not_none (some a) n = refl

-- What the endpoint may answer besides a token: 404, or a refusal with 422.
abbrev pub IsExpected : Error → Type 0
IsExpected e = (e ≡ http_error 404) ⊎ IsRefusal e
