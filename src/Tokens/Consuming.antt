-- ===== src/Tokens/Consuming.antt =====
-- A connect token is consumed once.
use smart_classroom.Prelude.{
  ℕ, ◌≡◌, ◌≢◌, refl, sym, subst, ◌⊎◌, inl, inr, Bool, true, false, ◌&&◌, List, [], ◌∷◌, none, some,
  arith, eq_iff, String, select_one, select_one-holds, select_one-none, update_where, count_where,
  count_where-none, All, All-map, IsIn, Bool-cases, ◌==◌,
}
use smart_classroom.Domain.Rows.{Token, connect}
use smart_classroom.Domain.Db.{Db, ok}
use smart_classroom.Tokens.Store.{is_open, is_valid_for, set_consumed}
use smart_classroom.Tokens.Connect.{verify_connect_token, mark_consumed}
use smart_classroom.Tokens.Unique.{HasUniqueKeys, OtherKeys, other_keys, later_keys, front_keys}

abbrev due : Token → Token → Bool
due t x = (x.id == t.id) && is_open x

none_due : (t : Token) (ts : List Token) → All (λ x. OtherKeys t x) ts → count_where (due t) ts ≡ 0
unfolding count_where
none_due t [] h = refl
none_due t (x ∷ ts) h = ground (arith, none_due t ts h.1)

-- After the UPDATE neither the token's id nor its jti is found open.
consumed-closed :
    (t : Token) (now : ℕ) (ts : List Token)
    → All (λ x. (x ≡ t) ⊎ OtherKeys t x) ts
    → All
        (λ x. (due t x ≡ false) × ((x.jti ≢ t.jti) ⊎ (is_open x ≡ false)))
        (update_where (due t) (set_consumed now) ts)
unfolding update_where
consumed-closed t now [] h = tt
consumed-closed t now (x ∷ ts) h = elim (Bool-cases (due t x)) [
  | inl e ↦ rw e ((ground arith, inr (ground arith)), consumed-closed t now ts h.1)
  | inr e ↦ rw e ((e, jti_or_closed e h.0), consumed-closed t now ts h.1)
]
  where
    jti_or_closed :
        due t x ≡ false → (x ≡ t) ⊎ OtherKeys t x → (x.jti ≢ t.jti) ⊎ (is_open x ≡ false)
    jti_or_closed e (inl q) = inr (ground arith)
    jti_or_closed e (inr k) = inl k.1

one_due :
    (n : ℕ) (t : Token) (ts : List Token)
    → HasUniqueKeys n ts
    → IsIn t ts
    → is_open t ≡ true
    → count_where (due t) ts ≡ 1
unfolding count_where
one_due n t [] h m o = absurd m
one_due n t (x ∷ ts) h (inl e) o =
    let rest = none_due t ts (subst (λ z. All (OtherKeys z) ts) (sym e) (later_keys n x ts h)) in
    ground (arith, rest)
one_due n t (x ∷ ts) h (inr m) o =
    let k = front_keys n t x ts h m in ground (arith, k.0, one_due x.id t ts h.2 m o)

-- The table after the UPDATE of `mark_consumed`.
abbrev pub consumed_db : ℕ → Token → Db → Db
consumed_db now t db = record db {
  tokens = update_where (λ x. (x.id == t.id) && is_open x) (set_consumed now) db.tokens;
}

module _ (digest : String → String) (now later : ℕ) (raw : String) (db : Db) (t : Token)
    (keys : HasUniqueKeys db.next_token_id db.tokens)
    (valid : verify_connect_token digest now raw db ≡ some t) where
  found : IsIn t db.tokens × (is_valid_for connect (digest raw) now t ≡ true)
  unfolding verify_connect_token
  found =
      let hit : select_one (is_valid_for connect (digest raw) now) db.tokens ≡ some t =
        ground arith in
      select_one-holds (is_valid_for connect (digest raw) now) db.tokens hit

  closed :
      All
        (λ x. (due t x ≡ false) × ((x.jti ≢ t.jti) ⊎ (is_open x ≡ false)))
        (consumed_db later t db).tokens
  closed = consumed-closed t later db.tokens (other_keys _ t db.tokens keys found.0)

  -- In a table with unique keys a token that verifies is consumed by the first call, which says so.
  pub mark_consumed-first : mark_consumed later t db ≡ ok (true, consumed_db later t db)
  unfolding mark_consumed
  mark_consumed-first =
      let open_token : is_open t ≡ true = ground (arith, found.1) in
      ground (arith, one_due db.next_token_id t db.tokens keys found.0 open_token)

  -- In a table with unique keys every later call for that token reports that it was taken.
  pub mark_consumed-again :
      (again : ℕ) → (db' : Db) × (mark_consumed again t (consumed_db later t db) ≡ ok (false, db'))
  unfolding mark_consumed
  mark_consumed-again again =
      let none_left =
        count_where-none (due t) (consumed_db later t db).tokens
          (All-map _ (λ x. due t x ≡ false) (λ x p. p.0) _ closed) in
      (consumed_db again t (consumed_db later t db), ground (arith, none_left))

  -- In a table with unique keys the raw value of a token that was consumed verifies at no time.
  pub consumed-not_verified :
      (again : ℕ) → verify_connect_token digest again raw (consumed_db later t db) ≡ none
  unfolding verify_connect_token
  consumed-not_verified again =
      let same : t.jti ≡ digest raw = (eq_iff t.jti (digest raw)).0 (ground (arith, found.1)) in
      let gone =
        select_one-none (is_valid_for connect (digest raw) again) (consumed_db later t db).tokens (
          All-map _ (λ x. is_valid_for connect (digest raw) again x ≡ false)
            (λ x p. ground (arith, p, same, eq_iff x.jti (digest raw))) _ closed) in
      ground (arith, gone)
