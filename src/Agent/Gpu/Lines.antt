-- ===== src/Agent/Gpu/Lines.antt =====
-- Stripping, splitting into lines, and splitting at commas, of texts put together in these ways.
use smart_classroom.Prelude.{
  ◌≡◌, ◌≢◌, refl, Bool, false, [], ◌∷◌, ◌++◌, arith, ◌==◌, if◌then◌else◌, Text, is_empty_text,
  rstrip, split_on, Lacks, ℕ,
}
use smart_classroom.Agent.Gpu.{is_line_break, lines_from}

pub split_on_separator :
    (sep : ℕ) (a s : Text)
    → Lacks (λ c. c == sep) a
    → split_on sep (a ++ (sep ∷ s)) ≡ a ∷ split_on sep s
unfolding split_on
split_on_separator sep [] s h = ground arith
split_on_separator sep (c ∷ a) s h = rw (h.0, if◌then◌else◌, split_on_separator sep a s h.1) refl

pub split_on_none : (sep : ℕ) (a : Text) → Lacks (λ c. c == sep) a → split_on sep a ≡ a ∷ []
unfolding split_on
split_on_none sep [] h = refl
split_on_none sep (c ∷ a) h = rw (h.0, if◌then◌else◌, split_on_none sep a h.1) refl

pub lines_from_feed :
    (l s : Text) → Lacks is_line_break l → lines_from false (l ++ (10 ∷ s)) ≡ l ∷ lines_from false s
unfolding lines_from
lines_from_feed [] s h = refl
lines_from_feed (c ∷ l) s h = ground (arith, h.0, lines_from_feed l s h.1)

pub lines_from_one :
    (c : ℕ) (l : Text) → Lacks is_line_break (c ∷ l) → lines_from false (c ∷ l) ≡ (c ∷ l) ∷ []
unfolding lines_from
lines_from_one c [] h = ground (arith, h.0)
lines_from_one c (d ∷ l) h = ground (arith, h.0, lines_from_one d l h.1)

pub rstrip_feed : (s : Text) → rstrip (s ++ (10 ∷ [])) ≡ rstrip s
unfolding rstrip
rstrip_feed [] = refl
rstrip_feed (c ∷ s) = rw (rstrip_feed s) refl

pub full_append : (a b : Text) → b ≢ [] → is_empty_text (a ++ b) ≡ false
full_append [] [] n = absurd (n refl)
full_append [] (c ∷ b) n = refl
full_append (c ∷ a) b n = refl

pub Lacks-append : (p : ℕ → Bool) (a b : Text) → Lacks p a → Lacks p b → Lacks p (a ++ b)
Lacks-append p [] b h k = k
Lacks-append p (c ∷ a) b h k = (h.0, Lacks-append p a b h.1 k)

pub rstrip_append : (a b : Text) → rstrip b ≡ b → b ≢ [] → rstrip (a ++ b) ≡ a ++ b
unfolding rstrip
rstrip_append [] b h n = h
rstrip_append (c ∷ a) b h n = rw (rstrip_append a b h n, full_append a b n) (ground arith)
