-- ===== src/Reservation/Calendar/Cursors.antt =====
-- The loop over the slots, and which slots one reservation marks.
use smart_classroom.Prelude.{
  ℕ, zero, suc, ◌+◌, ◌-◌, ◌*◌, ◌/◌, ◌≤◌, ◌<◌, ◌≡◌, ◌↔◌, refl, sym, subst, ap, ◌∙◌, inl, inr, true,
  false, [], ◌∷◌, arith, IsIn, Bool-cases, ltb, lt→ltb, min, max,
}
use smart_classroom.Reservation.Calendar.{cursors, cursors_of, first_cursor}

cursors-step :
    (fuel delta c stop : ℕ)
    → ltb c stop ≡ true
    → cursors (suc fuel) delta c stop ≡ c ∷ cursors fuel delta (c + delta) stop
unfolding cursors
cursors-step fuel delta c stop e = ground (arith, e)

cursors-end : (fuel delta c stop : ℕ) → ltb c stop ≡ false → cursors fuel delta c stop ≡ []
unfolding cursors
cursors-end zero delta c stop e = refl
cursors-end (suc fuel) delta c stop e = ground (arith, e)

-- Every value of the cursor is a whole number of steps on, and before the stop.
pub cursors_sound :
    (fuel delta c stop x : ℕ)
    → IsIn x (cursors fuel delta c stop)
    → (k : ℕ) × (x ≡ c + k * delta) × (x < stop)
unfolding cursors
cursors_sound zero delta c stop x m = absurd m
cursors_sound (suc fuel) delta c stop x m = elim (Bool-cases (ltb c stop)) [
  | inl e ↦
      here e (cursors_sound fuel delta (c + delta) stop x)
        (subst (IsIn x) (cursors-step fuel delta c stop e) m)
  | inr e ↦ absurd (subst (IsIn x) (cursors-end (suc fuel) delta c stop e) m)
]
  where
    here :
        ltb c stop ≡ true
        → (IsIn x (cursors fuel delta (c + delta) stop)
            → (k : ℕ) × (x ≡ c + delta + k * delta) × (x < stop))
        → IsIn x (c ∷ cursors fuel delta (c + delta) stop)
        → (k : ℕ) × (x ≡ c + k * delta) × (x < stop)
    here e ih (inl q) = (0, omega (arith, q), ground arith)
    here e ih (inr q) = let (k, on, below) = ih q in (suc k, grind arith, below)

-- With fuel for the distance none is left out.
pub cursors_complete :
    (fuel delta c stop k : ℕ)
    → 0 < delta
    → stop - c ≤ fuel
    → c + k * delta < stop
    → IsIn (c + k * delta) (cursors fuel delta c stop)
unfolding cursors
cursors_complete zero delta c stop k pos enough below = absurd (omega arith)
cursors_complete (suc fuel) delta c stop zero pos enough below =
    subst (IsIn (c + 0 * delta)) (sym (cursors-step fuel delta c stop (ground arith)))
      (inl (omega arith))
cursors_complete (suc fuel) delta c stop (suc k) pos enough below =
    let on : c + delta + k * delta ≡ c + suc k * delta = grind arith in
    let more : ltb c stop ≡ true = lt→ltb c stop (omega (arith, on, below)) in
    subst (IsIn (c + suc k * delta)) (sym (cursors-step fuel delta c stop more)) (
      inr (
        subst (λ x. IsIn x (cursors fuel delta (c + delta) stop)) on
          (cursors_complete fuel delta (c + delta) stop k pos (omega arith)
            (omega (arith, on, below)))))

-- The cursor begins a whole number of steps after the start of the grid, at the last such point that
-- is not after both bounds.
first-on_grid :
    (delta from lower : ℕ)
    → 0 < delta
    → (q : ℕ) × (first_cursor delta from lower ≡ from + q * delta)
      × (first_cursor delta from lower ≤ max lower from)
      × (max lower from < first_cursor delta from lower + delta)
first-on_grid delta from lower pos =
    let c : ℕ = max lower from in
    let later : from ≤ c = omega arith in
    ((c - from) / delta, grind arith, omega arith, grind arith)

steps_le : (q k delta x : ℕ) → x < delta + k * delta → q * delta ≤ x → q ≤ k
steps_le q k delta x a b = grind arith

steps-split : (q j delta : ℕ) → q * delta + j * delta ≡ (q + j) * delta
steps-split q j delta = grind arith

-- A reservation marks the slot that begins at `from + k * delta` exactly if it has an instant in
-- common with it.
pub marked :
    (delta from to lower upper k : ℕ)
    → 0 < delta
    → from + k * delta < to
    → IsIn (from + k * delta) (cursors_of delta (first_cursor delta from lower) (min upper to))
      ↔ ((lower < from + k * delta + delta) × (from + k * delta < upper))
marked delta from to lower upper k pos inside = (there, back)
  where
    there :
        IsIn (from + k * delta) (cursors_of delta (first_cursor delta from lower) (min upper to))
        → (lower < from + k * delta + delta) × (from + k * delta < upper)
    there m =
        let (j, on, below) = cursors_sound _ delta _ (min upper to) _ m in
        let (q, grid, low, high) = first-on_grid delta from lower pos in
        (omega (arith, on, high), omega (arith, below))

    back :
        (lower < from + k * delta + delta) × (from + k * delta < upper)
        → IsIn (from + k * delta) (cursors_of delta (first_cursor delta from lower) (min upper to))
    back h =
        let (q, grid, low, high) = first-on_grid delta from lower pos in
        let before : q ≤ k =
          steps_le q k delta (max lower from - from) (omega (arith, h))
            (omega (arith, grid, low)) in
        let sum : q + (k - q) ≡ k = omega (arith, before) in
        let split : q * delta + (k - q) * delta ≡ k * delta =
          steps-split q (k - q) delta ∙ ap (λ n. n * delta) sum in
        let on : first_cursor delta from lower + (k - q) * delta ≡ from + k * delta =
          omega (arith, grid, split) in
        subst (λ x. IsIn x (cursors_of delta (first_cursor delta from lower) (min upper to))) on
          (cursors_complete _ delta _ (min upper to) (k - q) pos (omega arith)
            (omega (arith, on, h)))
