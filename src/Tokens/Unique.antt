-- ===== src/Tokens/Unique.antt =====
-- The keys of the `tokens` table: ids fall along the list, newest first, and no jti is there twice.
-- Every service keeps this, since ids come from a sequence and the INSERT checks the jti.
use smart_classroom.Prelude.{
  ℕ, ◌<◌, ◌≡◌, ◌≢◌, refl, sym, subst, ap, ◌∙◌, ◌⊎◌, inl, inr, Bool, false, List, [], ◌∷◌, arith,
  String, str_eq, eq_iff, exists_where-none, update_where, All, All-map, IsIn, Bool-cases, Option,
  All-lookup,
}
use smart_classroom.Domain.Rows.{Token, Purpose}
use smart_classroom.Domain.Db.{Db}
use smart_classroom.Tokens.Store.{set_revoked, set_consumed}
use smart_classroom.Tokens.Issuing.{Inserted}

abbrev pub HasUniqueKeys : ℕ → List Token → Type 0
HasUniqueKeys n [] = Unit
HasUniqueKeys n (t ∷ ts) = (t.id < n) × All (λ x. x.jti ≢ t.jti) ts × HasUniqueKeys t.id ts

-- A change that leaves both keys alone.
abbrev pub KeepsKeys : (Token → Token) → Type 0
KeepsKeys f = (t : Token) → ((f t).id ≡ t.id) × ((f t).jti ≡ t.jti)

pub revoked-KeepsKeys : (now : ℕ) → KeepsKeys (set_revoked now)
revoked-KeepsKeys now t = (refl, refl)

pub consumed-KeepsKeys : (now : ℕ) → KeepsKeys (set_consumed now)
consumed-KeepsKeys now t = (refl, refl)

module _ (f : Token → Token) (p : Token → Bool) (keeps : KeepsKeys f) where
  jtis-update :
      (j : String) (ts : List Token)
      → All (λ x. x.jti ≢ j) ts
      → All (λ x. x.jti ≢ j) (update_where p f ts)
  unfolding update_where
  jtis-update j [] h = tt
  jtis-update j (t ∷ ts) h = elim (Bool-cases (p t)) [
    | inl e ↦ rw e ((λ q. h.0 (ground (arith, keeps t))), jtis-update j ts h.1)
    | inr e ↦ rw e (h.0, jtis-update j ts h.1)
  ]

  pub update-HasUniqueKeys :
      (n : ℕ) (ts : List Token) → HasUniqueKeys n ts → HasUniqueKeys n (update_where p f ts)
  unfolding update_where
  update-HasUniqueKeys n [] h = tt
  update-HasUniqueKeys n (t ∷ ts) h = elim (Bool-cases (p t)) [
    | inl e ↦ rw e (
      omega (arith, (keeps t).0),
      rw (keeps t).1 (jtis-update t.jti ts h.1),
      rw (keeps t).0 (update-HasUniqueKeys t.id ts h.2),
    )
    | inr e ↦ rw e (h.0, jtis-update t.jti ts h.1, update-HasUniqueKeys t.id ts h.2)
  ]

differs : (a b : String) → str_eq a b ≡ false → a ≢ b
differs a b e q = ground (arith, eq_iff a b)

pub Inserted-HasUniqueKeys :
    (db db' : Db) (jti : String) (u : ℕ) (h r : Option ℕ) (p : Purpose) (i e : ℕ) (t : Token)
    → Inserted db jti u h r p i e t db'
    → HasUniqueKeys db.next_token_id db.tokens
    → HasUniqueKeys db'.next_token_id db'.tokens
Inserted-HasUniqueKeys db db' jti u h r p i e t v k =
    subst (λ (d : Db). HasUniqueKeys d.next_token_id d.tokens) (sym v.rows)
      (
        omega (arith, ap (λ (x : Token). x.id) v.row),
        All-map _ _ (λ x q. differs_row x q) db.tokens (exists_where-none _ db.tokens v.fresh),
        subst (λ i. HasUniqueKeys i db.tokens) (sym (ap (λ (x : Token). x.id) v.row)) k,
      )
  where
    differs_row : (x : Token) → str_eq x.jti jti ≡ false → x.jti ≢ t.jti
    differs_row x q w = differs x.jti jti q (w ∙ ap (λ (y : Token). y.jti) v.row)

ids_below : (n : ℕ) (ts : List Token) → HasUniqueKeys n ts → All (λ x. x.id < n) ts
ids_below n [] h = tt
ids_below n (t ∷ ts) h = (h.0, All-map _ _ (λ x q. omega (arith, h.0)) ts (ids_below t.id ts h.2))

abbrev pub OtherKeys : Token → Token → Type 0
OtherKeys t x = (x.id ≢ t.id) × (x.jti ≢ t.jti)

-- The rows behind a token in the list have other keys.
pub later_keys :
    (n : ℕ) (t : Token) (ts : List Token) → HasUniqueKeys n (t ∷ ts) → All (OtherKeys t) ts
later_keys n t ts h = both ts h.1 (ids_below t.id ts h.2)
  where
    both :
        (xs : List Token)
        → All (λ x. x.jti ≢ t.jti) xs
        → All (λ x. x.id < t.id) xs
        → All (OtherKeys t) xs
    both [] j k = tt
    both (x ∷ xs) j k = ((omega (arith, k.0), j.0), both xs j.1 k.1)

-- A row further back has other keys than the one in front.
pub front_keys :
    (n : ℕ) (t x : Token) (ts : List Token) → HasUniqueKeys n (x ∷ ts) → IsIn t ts → OtherKeys t x
front_keys n t x ts h m =
    let k = All-lookup (OtherKeys x) ts (later_keys n x ts h) m in
    (λ q. k.0 (sym q), λ q. k.1 (sym q))

-- In such a table every other row has another id and another jti.
pub other_keys :
    (n : ℕ) (t : Token) (ts : List Token)
    → HasUniqueKeys n ts
    → IsIn t ts
    → All (λ x. (x ≡ t) ⊎ OtherKeys t x) ts
other_keys n t [] h m = absurd m
other_keys n t (x ∷ ts) h (inl e) =
    subst (λ z. All (λ y. (y ≡ z) ⊎ OtherKeys z y) (x ∷ ts)) (sym e)
      (inl refl, All-map _ _ (λ y k. inr k) ts (later_keys n x ts h))
other_keys n t (x ∷ ts) h (inr m) = (inr (front_keys n t x ts h m), other_keys x.id t ts h.2 m)
