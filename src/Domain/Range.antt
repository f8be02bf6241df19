-- ===== src/Domain/Range.antt =====
-- The TSTZRANGE column: half-open ranges of instants. The program only writes bounded ones, by
-- `tstzrange(:s, :e, '[)')`, so there is no range without a bound.
use smart_classroom.Prelude.{
  ℕ, Bool, false, ◌&&◌, Option, none, some, ltb, leb, ◌==◌, if◌then◌else◌,
}

pub data TimeRange : Type 0 where
  empty : TimeRange
  bounded : ℕ → ℕ → TimeRange

-- `tstzrange(s, e, '[)')` raises if the lower bound is the greater, and is empty if they are equal.
unfoldable pub tstzrange : ℕ → ℕ → Option TimeRange
tstzrange s e = if ltb e s then none else if s == e then some empty else some (bounded s e)

-- `a && b`
abbrev pub overlaps : TimeRange → TimeRange → Bool
overlaps empty _ = false
overlaps (bounded a b) empty = false
overlaps (bounded a b) (bounded c d) = ltb a d && ltb c b

-- `r @> t`
abbrev pub covers : TimeRange → ℕ → Bool
covers empty t = false
covers (bounded a b) t = leb a t && ltb t b

-- `upper(r) > t`; the bounds of an empty range are NULL, and so is the comparison.
abbrev pub upper_after : TimeRange → ℕ → Bool
upper_after empty t = false
upper_after (bounded a b) t = ltb t b

-- `lower(r) > t`
abbrev pub lower_after : TimeRange → ℕ → Bool
lower_after empty t = false
lower_after (bounded a b) t = ltb t a

-- `lower(r) < t`
abbrev pub lower_before : TimeRange → ℕ → Bool
lower_before empty t = false
lower_before (bounded a b) t = ltb a t

-- `raw.lower`, `raw.upper`: both are None for an empty range.
abbrev pub bounds : TimeRange → Option (ℕ × ℕ)
bounds empty = none
bounds (bounded a b) = some (a, b)
