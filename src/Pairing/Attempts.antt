-- ===== src/Pairing/Attempts.antt =====
-- The retry loop against its description: the first attempt that is not to be retried decides.
use smart_classroom.Prelude.{ℕ, ◌+◌, ◌-◌, ◌≤◌, ◌<◌, ◌≡◌, ◌≢◌, refl, ◌⊎◌, inl, inr}
use smart_classroom.Domain.Settings.{Settings}
use smart_classroom.Pairing.Push.{
  Reply, Reason, sunshine_rejected, Outcome, paired, host_not_pairable, pairing_unreachable,
  pairing_rejected, Verdict, accepted, refused, retry, judge,
}

pub data IsRetried (v : Verdict) : Type 0 where
  again : (reason : Reason) → v ≡ retry reason → IsRetried v

-- Attempts from `a` up to before `n` are all to be retried.
abbrev pub RetriedFrom : (ℕ → Reply) → ℕ → ℕ → Type 0
RetriedFrom replies a n = (i : ℕ) → a ≤ i → i < n → IsRetried (judge (replies i))

-- The reason that stands after the last of `k` attempts from `a`.
abbrev pub LastReason : (ℕ → Reply) → ℕ → ℕ → Reason → Reason → Type 0
LastReason replies a k last reason =
    ((k ≡ 0) × (reason ≡ last)) ⊎ ((0 < k) × (judge (replies (a + k - 1)) ≡ retry reason))

-- How an outcome of the loop, begun at attempt `a` with `k` rounds left, comes about.
abbrev pub Explains : (ℕ → Reply) → ℕ → ℕ → ℕ → Reason → Outcome → Type 0
Explains replies m a k last (paired n) =
    (a ≤ n) × (n < a + k) × (judge (replies n) ≡ accepted) × RetriedFrom replies a n
Explains replies m a k last host_not_pairable = ⊥
Explains replies m a k last (pairing_unreachable reason n) =
    RetriedFrom replies a (a + k)
    × LastReason replies a k last reason
    × (reason ≢ sunshine_rejected)
    × (n ≡ m)
Explains replies m a k last (pairing_rejected reason n) =
    ((a ≤ n) × (n < a + k) × (judge (replies n) ≡ refused reason) × RetriedFrom replies a n)
    ⊎ (RetriedFrom replies a (a + k)
        × LastReason replies a k last reason
        × (reason ≡ sunshine_rejected)
        × (n ≡ m))

pub Verdict-cases :
    (v : Verdict)
    → (v ≡ accepted) ⊎ (((r : Reason) × (v ≡ refused r)) ⊎ ((r : Reason) × (v ≡ retry r)))
Verdict-cases accepted = inl refl
Verdict-cases (refused r) = inr (inl (r, refl))
Verdict-cases (retry r) = inr (inr (r, refl))
