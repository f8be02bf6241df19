-- ===== src/System/Running.antt =====
-- What the invariant means at one instant: a host is never promised to two reservations at once.
use smart_classroom.Prelude.{
  ℕ, ◌≡◌, sym, ◌∙◌, inl, inr, true, List, [], ◌∷◌, arith, String, All-lookup, IsIn, subst,
}
use smart_classroom.Domain.Range.{TimeRange, empty, bounded, covers}
use smart_classroom.Domain.Settings.{Settings}
use smart_classroom.Domain.Rows.{Reservation, is_active_status}
use smart_classroom.Reservation.Overlap.{NoOverlap, Apart, Disjoint}
use smart_classroom.Hosts.Status.{World}
use smart_classroom.System.Reach.{Reach, Reach-Inv}

-- An active reservation of the host whose range covers the instant.
pub record Running (host_id t : ℕ) (r : Reservation) : Type 0 where
  pub active : is_active_status r.status ≡ true
  pub place : r.host_id ≡ host_id
  pub covering : covers r.time_range t ≡ true

Disjoint-absurd :
    {P : Type 0} (x y : TimeRange) (t : ℕ)
    → Disjoint x y
    → covers x t ≡ true
    → covers y t ≡ true
    → P
Disjoint-absurd empty y t d a b = absurd (ground arith)
Disjoint-absurd (bounded p q) empty t d a b = absurd (ground arith)
Disjoint-absurd (bounded p q) (bounded u v) t d a b = absurd (ground arith)

Apart-absurd :
    {P : Type 0} (h t : ℕ) (r s : Reservation) → Apart r s → Running h t r → Running h t s → P
Apart-absurd h t r s k a b =
    Disjoint-absurd r.time_range s.time_range t (k a.active b.active (a.place ∙ sym b.place))
      a.covering b.covering

Running-unique :
    (h t : ℕ) (r s : Reservation) (rows : List Reservation)
    → NoOverlap rows
    → IsIn r rows
    → IsIn s rows
    → Running h t r
    → Running h t s
    → r ≡ s
Running-unique h t r s [] v m n a b = absurd m
Running-unique h t r s (x ∷ rows) v (inl e) (inl f) a b = e ∙ sym f
Running-unique h t r s (x ∷ rows) v (inl e) (inr n) a b =
    Apart-absurd h t x s (All-lookup (Apart x) rows v.0 n) (subst (Running h t) e a) b
Running-unique h t r s (x ∷ rows) v (inr m) (inl f) a b =
    Apart-absurd h t x r (All-lookup (Apart x) rows v.0 m) (subst (Running h t) f b) a
Running-unique h t r s (x ∷ rows) v (inr m) (inr n) a b = Running-unique h t r s rows v.1 m n a b

-- In a state that the broker reaches, two rows of the table that are active on one host and cover
-- one instant are the same row.
pub Reach-alone :
    (digest : String → String) (settings : Settings) (w : World) (host_id t : ℕ) (r s : Reservation)
    → Reach digest settings w
    → IsIn r w.db.reservations
    → IsIn s w.db.reservations
    → Running host_id t r
    → Running host_id t s
    → r ≡ s
Reach-alone digest settings w host_id t r s reach m n a b =
    Running-unique host_id t r s w.db.reservations (Reach-Inv digest settings reach).no_overlap m n
      a b
