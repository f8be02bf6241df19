-- ===== src/Hosts/Lookup.antt =====
-- The row of a host after an UPDATE by its id.
use smart_classroom.Prelude.{
  ℕ, ◌≡◌, refl, true, List, [], ◌∷◌, some, arith, select_one, update_where, ◌==◌,
}
use smart_classroom.Domain.Rows.{Host, HostStatus, offline, idle, in_use, degraded, same_status}

pub same_status-eq : (a b : HostStatus) → same_status a b ≡ true → a ≡ b
same_status-eq offline b h = ground arith
same_status-eq idle b h = ground arith
same_status-eq in_use b h = ground arith
same_status-eq degraded offline h = ground arith
same_status-eq degraded idle h = ground arith
same_status-eq degraded in_use h = ground arith
same_status-eq degraded degraded h = refl

-- Whatever is set in the row that an id finds, but for the id, is found under the id afterwards.
pub select_one-set :
    (f : Host → Host)
    → ((h : Host) → (f h).id ≡ h.id)
    → (i : ℕ) (hosts : List Host) (g : Host) → select_one (λ x. x.id == i) hosts ≡ some g
    → select_one (λ x. x.id == i) (update_where (λ x. x.id == g.id) f hosts) ≡ some (f g)
unfolding select_one update_where
select_one-set f same i [] g e = cc
select_one-set f same i (x ∷ hosts) g e =
    ground (arith, same x, same g, select_one-set f same i hosts g)
