-- ===== src/Prelude/Members.antt =====
-- Membership in the lists that `map` and `++` build.
use mathlib.Core.Path.{◌≡◌, refl, ap}
use mathlib.Core.Logic.{◌⊎◌, inl, inr}
use mathlib.Core.List.{List, [], ◌∷◌, ◌++◌, map}
use smart_classroom.Prelude.Tables.{IsIn}

module _ {A : Type 0} where
  pub IsIn-append : (a : A) (xs ys : List A) → IsIn a (xs ++ ys) → IsIn a xs ⊎ IsIn a ys
  IsIn-append a [] ys m = inr m
  IsIn-append a (x ∷ xs) ys (inl e) = inl (inl e)
  IsIn-append a (x ∷ xs) ys (inr m) = elim (IsIn-append a xs ys m) [
    | inl k ↦ inl (inr k)
    | inr k ↦ inr k
  ]

  pub IsIn-append_left : (a : A) (xs ys : List A) → IsIn a xs → IsIn a (xs ++ ys)
  IsIn-append_left a [] ys m = absurd m
  IsIn-append_left a (x ∷ xs) ys (inl e) = inl e
  IsIn-append_left a (x ∷ xs) ys (inr m) = inr (IsIn-append_left a xs ys m)

  pub IsIn-append_right : (a : A) (xs ys : List A) → IsIn a ys → IsIn a (xs ++ ys)
  IsIn-append_right a [] ys m = m
  IsIn-append_right a (x ∷ xs) ys m = inr (IsIn-append_right a xs ys m)

module _ {A B : Type 0} where
  pub IsIn-map :
      (f : A → B) (b : B) (xs : List A) → IsIn b (map f xs) → (a : A) × IsIn a xs × (b ≡ f a)
  IsIn-map f b [] m = absurd m
  IsIn-map f b (x ∷ xs) (inl e) = (x, inl refl, e)
  IsIn-map f b (x ∷ xs) (inr m) = let (a, k, e) = IsIn-map f b xs m in (a, inr k, e)

  pub map-IsIn : (f : A → B) (a : A) (xs : List A) → IsIn a xs → IsIn (f a) (map f xs)
  map-IsIn f a [] m = absurd m
  map-IsIn f a (x ∷ xs) (inl e) = inl (ap f e)
  map-IsIn f a (x ∷ xs) (inr m) = inr (map-IsIn f a xs m)
