-- ===== src/Api/Accounts.antt =====
-- Signing in: what it does to the accounts that exist.
use smart_classroom.Prelude.{
  ◌≡◌, refl, sym, ap, subst, ◌⊎◌, inl, inr, Bool, List, [], ◌∷◌, arith, IsIn, Bool-cases,
  Option-cases, update_where, select_one,
}
use smart_classroom.Domain.Rows.{User}
use smart_classroom.Domain.Db.{Db, ok}
use smart_classroom.Api.Login.{
  UserIdentity, is_account, refresh, upsert_row, upsert_user, user_from,
}

-- An UPDATE keeps each row, changed or as it was.
kept :
    (f : User → User) (p : User → Bool) (u : User) (rows : List User)
    → IsIn u rows
    → IsIn u (update_where p f rows) ⊎ IsIn (f u) (update_where p f rows)
unfolding update_where
kept f p u [] m = absurd m
kept f p u (x ∷ rows) (inl e) = elim (Bool-cases (p x)) [
  | inl q ↦ rw q (inr (inl (ap f e)))
  | inr q ↦ rw q (inl (inl e))
]
kept f p u (x ∷ rows) (inr m) = elim (kept f p u rows m) [
  | inl k ↦ inl (inr k)
  | inr k ↦ inr (inr k)
]

upsert-users :
    (i : UserIdentity) (db db' : Db) (v : User)
    → upsert_user i db ≡ ok (v, db')
    → (db'.users ≡ user_from db.next_user_id i ∷ db.users)
      ⊎ (db'.users ≡ update_where (is_account i) (refresh i) db.users)
unfolding upsert_user upsert_row
upsert-users i db db' v h = elim (Option-cases (select_one (is_account i) db.users)) [
  | inl e ↦ inl (ground arith)
  | inr (u, e) ↦ inr (ground arith)
]

-- After a sign-in each account that was there is still there, with its id, its role, and whether it
-- is active: an identity provider changes at most names and addresses.
pub upsert_user_keeps :
    (i : UserIdentity) (db db' : Db) (v u : User)
    → upsert_user i db ≡ ok (v, db')
    → IsIn u db.users
    → (w : User) × IsIn w db'.users
      × (w.id ≡ u.id)
      × (w.role ≡ u.role)
      × (w.is_active ≡ u.is_active)
upsert_user_keeps i db db' v u h m = elim (upsert-users i db db' v h) [
  | inl e ↦ (u, subst (IsIn u) (sym e) (inr m), refl, refl, refl)
  | inr e ↦ elim (kept (refresh i) (is_account i) u db.users m) [
    | inl k ↦ (u, subst (IsIn u) (sym e) k, refl, refl, refl)
    | inr k ↦ (refresh i u, subst (IsIn (refresh i u)) (sym e) k, refl, refl, refl)
  ]
]
