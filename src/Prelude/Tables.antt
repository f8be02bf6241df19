-- ===== src/Prelude/Tables.antt =====
-- Tables as lists of rows, with the four shapes of SQL statement that the program sends: SELECT,
-- UPDATE and its row count, COUNT and EXISTS, each with its WHERE clause as a Boolean test.
use Prim.Native.Nat.{ℕ, zero, suc, ◌+◌, ◌-◌, ◌≤◌}
use mathlib.Core.Path.{◌≡◌, refl, sym, ap, subst, ◌∙◌}
use mathlib.Core.Logic.{◌⊎◌, inl, inr}
use mathlib.Core.Bool.{Bool, true, false, ◌||◌}
use mathlib.Core.List.{List, [], ◌∷◌, ◌++◌}
use mathlib.Core.Option.{Option, none, some}
use native.Mathlib.Omega.{arith}
use smart_classroom.Prelude.Tests.{if◌then◌else◌, Bool-cases}

module _ {ℓ} {A : Type ℓ} where
  abbrev pub length : List A → ℕ
  length [] = 0
  length (x ∷ xs) = suc (length xs)

  -- SELECT ... WHERE
  unfoldable pub select_where : (A → Bool) → List A → List A
  select_where p [] = []
  select_where p (x ∷ xs) = let rest = select_where p xs in if p x then x ∷ rest else rest

  -- SELECT ... WHERE ... LIMIT 1
  unfoldable pub select_one : (A → Bool) → List A → Option A
  select_one p [] = none
  select_one p (x ∷ xs) = if p x then some x else select_one p xs

  -- UPDATE ... SET ... WHERE
  unfoldable pub update_where : (A → Bool) → (A → A) → List A → List A
  update_where p f [] = []
  update_where p f (x ∷ xs) = (if p x then f x else x) ∷ update_where p f xs

  -- SELECT count(*) ... WHERE, also the row count of an UPDATE
  unfoldable pub count_where : (A → Bool) → List A → ℕ
  count_where p [] = 0
  count_where p (x ∷ xs) = (if p x then 1 else 0) + count_where p xs

  -- EXISTS (SELECT ... WHERE)
  unfoldable pub exists_where : (A → Bool) → List A → Bool
  exists_where p [] = false
  exists_where p (x ∷ xs) = p x || exists_where p xs

  abbrev pub All {κ} : (A → Type κ) → List A → Type κ
  All P [] = Unit
  All P (x ∷ xs) = P x × All P xs

module _ {A : Type 0} where
  abbrev pub IsIn : A → List A → Type 0
  IsIn a [] = ⊥
  IsIn a (x ∷ xs) = (a ≡ x) ⊎ IsIn a xs

  pub All-lookup {κ} : (P : A → Type κ) {a : A} (xs : List A) → All P xs → IsIn a xs → P a
  All-lookup P [] h m = absurd m
  All-lookup P (x ∷ xs) h (inl e) = subst P (sym e) h.0
  All-lookup P (x ∷ xs) h (inr m) = All-lookup P xs h.1 m

  pub All-map {κ} : (P Q : A → Type κ) → ((a : A) → P a → Q a) → (xs : List A) → All P xs → All Q xs
  All-map P Q f [] h = tt
  All-map P Q f (x ∷ xs) h = (f x h.0, All-map P Q f xs h.1)

  pub All-update_where {κ} :
      (P : A → Type κ) (p : A → Bool) (f : A → A)
      → ((a : A) → P a → P (f a))
      → (xs : List A) → All P xs
      → All P (update_where p f xs)
  unfolding update_where
  All-update_where P p f keep [] h = tt
  All-update_where P p f keep (x ∷ xs) h = elim (Bool-cases (p x)) [
    | inl e ↦ rw e (keep x h.0, All-update_where P p f keep xs h.1)
    | inr e ↦ rw e (h.0, All-update_where P p f keep xs h.1)
  ]

  -- EXISTS is false exactly if no row passes the test.
  pub exists_where-none :
      (p : A → Bool) (xs : List A) → exists_where p xs ≡ false → All (λ x. p x ≡ false) xs
  unfolding exists_where
  exists_where-none p [] h = tt
  exists_where-none p (x ∷ xs) h =
      let head : p x ≡ false = ground arith in
      let rest : exists_where p xs ≡ false = ground arith in (head, exists_where-none p xs rest)

  pub exists_where-some :
      (p : A → Bool) (xs : List A) → All (λ x. p x ≡ false) xs → exists_where p xs ≡ false
  unfolding exists_where
  exists_where-some p [] h = refl
  exists_where-some p (x ∷ xs) h = ground (arith, exists_where-some p xs h.1)

  -- The rows that a SELECT returns are those of the table that pass its test.
  pub select_where_sound :
      (p : A → Bool) (a : A) (xs : List A) → IsIn a (select_where p xs) → IsIn a xs × (p a ≡ true)
  unfolding select_where
  select_where_sound p a [] h = absurd h
  select_where_sound p a (x ∷ xs) h = elim (Bool-cases (p x)) [
    | inl e ↦ pass e (select_where_sound p a xs) (rw (e, if◌then◌else◌) at h)
    | inr e ↦ let r = select_where_sound p a xs (rw (e, if◌then◌else◌) at h) in (inr r.0, r.1)
  ]
    where
      pass :
          p x ≡ true
          → (IsIn a (select_where p xs) → IsIn a xs × (p a ≡ true))
          → (a ≡ x) ⊎ IsIn a (select_where p xs)
          → IsIn a (x ∷ xs) × (p a ≡ true)
      pass e ih (inl q) = (inl q, ap p q ∙ e)
      pass e ih (inr q) = (inr (ih q).0, (ih q).1)

  pub select_where_complete :
      (p : A → Bool) (a : A) (xs : List A) → IsIn a xs → p a ≡ true → IsIn a (select_where p xs)
  unfolding select_where
  select_where_complete p a [] h e = absurd h
  select_where_complete p a (x ∷ xs) (inl q) e = rw (← q, e) (inl refl)
  select_where_complete p a (x ∷ xs) (inr q) e = elim (Bool-cases (p x)) [
    | inl f ↦ rw f (inr (select_where_complete p a xs q e))
    | inr f ↦ rw f (select_where_complete p a xs q e)
  ]

  -- What SELECT ... LIMIT 1 returns is a row of the table that passes the test.
  pub select_one-holds :
      (p : A → Bool) (xs : List A) {a : A} → select_one p xs ≡ some a → IsIn a xs × (p a ≡ true)
  unfolding select_one
  select_one-holds p [] e = cc
  select_one-holds p (x ∷ xs) e = elim (Bool-cases (p x)) [
    | inl q ↦ ground arith
    | inr q ↦ let r = select_one-holds p xs (ground arith) in (inr r.0, r.1)
  ]

  pub select_one-none :
      (p : A → Bool) (xs : List A) → All (λ x. p x ≡ false) xs → select_one p xs ≡ none
  unfolding select_one
  select_one-none p [] h = refl
  select_one-none p (x ∷ xs) h = rw h.0 (select_one-none p xs h.1)

  pub count_where-none :
      (p : A → Bool) (xs : List A) → All (λ x. p x ≡ false) xs → count_where p xs ≡ 0
  unfolding count_where
  count_where-none p [] h = refl
  count_where-none p (x ∷ xs) h = rw h.0 (omega (arith, count_where-none p xs h.1))

module _ {A : Type 0} where
  pub exists_where-witness :
      (p : A → Bool) (xs : List A) → exists_where p xs ≡ true → (a : A) × IsIn a xs × (p a ≡ true)
  unfolding exists_where
  exists_where-witness p [] h = absurd (ground arith)
  exists_where-witness p (x ∷ xs) h = elim (Bool-cases (p x)) [
    | inl e ↦ (x, inl refl, e)
    | inr e ↦ let (a, m, q) = exists_where-witness p xs (ground arith) in (a, inr m, q)
  ]

  pub exists_where-IsIn :
      (p : A → Bool) (a : A) (xs : List A) → IsIn a xs → p a ≡ true → exists_where p xs ≡ true
  unfolding exists_where
  exists_where-IsIn p a [] m h = absurd m
  exists_where-IsIn p a (x ∷ xs) (inl e) h = ground arith
  exists_where-IsIn p a (x ∷ xs) (inr m) h = ground (arith, exists_where-IsIn p a xs m h)

  pub All-IsIn {κ} : (P : A → Type κ) (xs : List A) → ((a : A) → IsIn a xs → P a) → All P xs
  All-IsIn P [] f = tt
  All-IsIn P (x ∷ xs) f = (f x (inl refl), All-IsIn P xs (λ a m. f a (inr m)))

  pub update_where-congr :
      (p q : A → Bool) (f : A → A) (xs : List A)
      → All (λ x. p x ≡ q x) xs
      → update_where p f xs ≡ update_where q f xs
  unfolding update_where
  update_where-congr p q f [] h = refl
  update_where-congr p q f (x ∷ xs) h = rw (h.0, update_where-congr p q f xs h.1)

  -- Two updates to the same values are one, if the first leaves the second's test alone.
  pub update_where-twice :
      (p q : A → Bool) (f : A → A)
      → ((x : A) → q (f x) ≡ q x)
      → ((x : A) → f (f x) ≡ f x)
      → (xs : List A) → update_where q f (update_where p f xs) ≡ update_where (λ x. p x || q x) f xs
  unfolding update_where
  update_where-twice p q f same once [] = refl
  update_where-twice p q f same once (x ∷ xs) =
      ground (arith, same x, once x, update_where-twice p q f same once xs)

module _ {ℓ} {A : Type ℓ} where
  abbrev pub drop : ℕ → List A → List A
  drop zero xs = xs
  drop (suc n) [] = []
  drop (suc n) (x ∷ xs) = drop n xs

  pub length-append : (xs ys : List A) → length (xs ++ ys) ≡ length xs + length ys
  length-append [] ys = omega arith
  length-append (x ∷ xs) ys = omega (arith, length-append xs ys)

  pub drop-append : (n : ℕ) (xs ys : List A) → n ≤ length xs → drop n (xs ++ ys) ≡ drop n xs ++ ys
  drop-append zero xs ys h = refl
  drop-append (suc n) [] ys h = absurd (omega arith)
  drop-append (suc n) (x ∷ xs) ys h = drop-append n xs ys (omega arith)

  pub length-drop : (n : ℕ) (xs : List A) → length (drop n xs) ≡ length xs - n
  length-drop zero xs = omega arith
  length-drop (suc n) [] = omega arith
  length-drop (suc n) (x ∷ xs) = omega (arith, length-drop n xs)

  drop-nil : (n : ℕ) → drop n [] ≡ []
  drop-nil zero = refl
  drop-nil (suc n) = refl

  pub drop-drop : (m n : ℕ) (xs : List A) → drop m (drop n xs) ≡ drop (n + m) xs
  drop-drop m zero xs = let e : zero + m ≡ m = omega arith in rw e
  drop-drop m (suc n) [] = drop-nil m ∙ sym (drop-nil (suc n + m))
  drop-drop m (suc n) (x ∷ xs) =
      let e : suc n + m ≡ suc (n + m) = omega arith in rw e (drop-drop m n xs)
