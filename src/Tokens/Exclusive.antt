-- ===== src/Tokens/Exclusive.antt =====
-- Of the open tokens in the table one at most opens a given reservation, and one at most speaks for
-- a given host's agent, whether they have expired or not.
use smart_classroom.Prelude.{
  ℕ, ◌≡◌, sym, subst, ◌∙◌, inl, inr, Bool, true, false, List, [], ◌∷◌, some, arith, update_where,
  All, All-map, All-update_where, Bool-cases, All-lookup, IsIn,
}
use smart_classroom.Domain.Rows.{Token, session, connect, agent}
use smart_classroom.Tokens.Store.{set_revoked, set_consumed}
use smart_classroom.Tokens.Connect.{is_active_for}
use smart_classroom.Tokens.Agent.{is_agent_of}

-- `x` is not open for what `t` is open for.
abbrev pub Yields : Token → Token → Type 0
Yields t x =
    ((i : ℕ) → is_active_for i t ≡ true → is_active_for i x ≡ false)
    × ((h : ℕ) → is_agent_of h t ≡ true → is_agent_of h x ≡ false)

abbrev pub Exclusive : List Token → Type 0
Exclusive [] = Unit
Exclusive (t ∷ ts) = All (Yields t) ts × Exclusive ts

-- A change after which a token is open for nothing.
abbrev pub Closes : (Token → Token) → Type 0
Closes f = (i : ℕ) (t : Token) → (is_active_for i (f t) ≡ false) × (is_agent_of i (f t) ≡ false)

pub revoked-Closes : (now : ℕ) → Closes (set_revoked now)
revoked-Closes now i t = (ground arith, ground arith)

pub consumed-Closes : (now : ℕ) → Closes (set_consumed now)
consumed-Closes now i t = (ground arith, ground arith)

module _ (f : Token → Token) (p : Token → Bool) (closes : Closes f) where
  to_closed : (t x : Token) → Yields t x → Yields t (f x)
  to_closed t x y = (λ i q. (closes i x).0, λ h q. (closes h x).1)

  closed-Yields : (t x : Token) → Yields (f t) x
  closed-Yields t x = (
    λ i q. absurd (ground (arith, (closes i t).0)),
    λ h q. absurd (ground (arith, (closes h t).1)),
  )

  all_closed : (t : Token) (ts : List Token) → All (Yields (f t)) ts
  all_closed t [] = tt
  all_closed t (x ∷ ts) = (closed-Yields t x, all_closed t ts)

  pub update-Exclusive : (ts : List Token) → Exclusive ts → Exclusive (update_where p f ts)
  unfolding update_where
  update-Exclusive [] h = tt
  update-Exclusive (t ∷ ts) h = elim (Bool-cases (p t)) [
    | inl e ↦ rw e (all_closed t (update_where p f ts), update-Exclusive ts h.1)
    | inr e ↦ rw e (All-update_where (Yields t) p f (to_closed t) ts h.0, update-Exclusive ts h.1)
  ]

connect-Yields :
    (r : ℕ) (t x : Token)
    → t.purpose ≡ connect
    → t.reservation_id ≡ some r
    → is_active_for r x ≡ false
    → Yields t x
connect-Yields r t x p s off = (
  λ i q. let e : i ≡ r = ground (arith, p, s) in subst (λ k. is_active_for k x ≡ false) (sym e) off,
  λ h q. absurd (ground (arith, p)),
)

agent-Yields :
    (h : ℕ) (t x : Token)
    → t.purpose ≡ agent
    → t.host_id ≡ some h
    → is_agent_of h x ≡ false
    → Yields t x
agent-Yields h t x p s off = (
  λ i q. absurd (ground (arith, p)),
  λ k q. let e : k ≡ h = ground (arith, p, s) in subst (λ j. is_agent_of j x ≡ false) (sym e) off,
)

-- A new connect token, once those of its reservation are closed.
pub connect-Exclusive :
    (r : ℕ) (t : Token) (ts : List Token)
    → t.purpose ≡ connect
    → t.reservation_id ≡ some r
    → All (λ x. is_active_for r x ≡ false) ts
    → Exclusive ts
    → Exclusive (t ∷ ts)
connect-Exclusive r t ts p s off h =
    (All-map _ (Yields t) (λ x q. connect-Yields r t x p s q) ts off, h)

-- A new agent token, once those of its host are closed.
pub agent-Exclusive :
    (i : ℕ) (t : Token) (ts : List Token)
    → t.purpose ≡ agent
    → t.host_id ≡ some i
    → All (λ x. is_agent_of i x ≡ false) ts
    → Exclusive ts
    → Exclusive (t ∷ ts)
agent-Exclusive i t ts p s off h =
    (All-map _ (Yields t) (λ x q. agent-Yields i t x p s q) ts off, h)

session-Yields : (t : Token) (ts : List Token) → t.purpose ≡ session → All (Yields t) ts
session-Yields t [] p = tt
session-Yields t (x ∷ ts) p =
    ((λ i q. absurd (ground (arith, p)), λ h q. absurd (ground (arith, p))), session-Yields t ts p)

-- A new session is open for no reservation and no host.
pub session-Exclusive :
    (t : Token) (ts : List Token) → t.purpose ≡ session → Exclusive ts → Exclusive (t ∷ ts)
session-Exclusive t ts p h = (session-Yields t ts p, h)

clash : {P : Type 0} (b : Bool) → b ≡ true → b ≡ false → P
clash b p q = absurd (ground arith)

module _ (p : Token → Bool) (apart : (t x : Token) → Yields t x → p t ≡ true → p x ≡ false) where
  only_row :
      (x y : Token) (ts : List Token)
      → Exclusive ts
      → IsIn x ts
      → IsIn y ts
      → p x ≡ true
      → p y ≡ true
      → x ≡ y
  only_row x y [] v m n a b = absurd m
  only_row x y (t ∷ ts) v (inl e) (inl f) a b = e ∙ sym f
  only_row x y (t ∷ ts) v (inl e) (inr n) a b =
      clash _ b (apart t y (All-lookup (Yields t) ts v.0 n) (subst (λ z. p z ≡ true) e a))
  only_row x y (t ∷ ts) v (inr m) (inl f) a b =
      clash _ a (apart t x (All-lookup (Yields t) ts v.0 m) (subst (λ z. p z ≡ true) f b))
  only_row x y (t ∷ ts) v (inr m) (inr n) a b = only_row x y ts v.1 m n a b

module _ (i : ℕ) (x y : Token) (ts : List Token) (v : Exclusive ts) (m : IsIn x ts)
    (n : IsIn y ts) where
  -- Two rows that are open for one reservation are the same row.
  pub active_unique : is_active_for i x ≡ true → is_active_for i y ≡ true → x ≡ y
  active_unique = only_row (is_active_for i) (λ t z k. k.0 i) x y ts v m n

  -- Two rows that are open for one host's agent are the same row.
  pub agent_unique : is_agent_of i x ≡ true → is_agent_of i y ≡ true → x ≡ y
  agent_unique = only_row (is_agent_of i) (λ t z k. k.1 i) x y ts v m n
