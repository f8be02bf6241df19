-- ===== src/System/Growing.antt =====
-- No step takes a host away: what is written to the table of hosts keeps the ids of its rows.
use smart_classroom.Prelude.{
  ℕ, ◌≡◌, refl, subst, inl, inr, Bool, false, ◌∷◌, arith, update_where, String, ◌==◌, Bool-cases,
  if◌then◌else◌,
}
use smart_classroom.Domain.Settings.{Settings}
use smart_classroom.Domain.Rows.{Host, HostStatus, Metadata, same_status}
use smart_classroom.Domain.Db.{Db, ok}
use smart_classroom.Hosts.Events.{new_broker}
use smart_classroom.Hosts.Status.{World, set_status, transition_host}
use smart_classroom.Reservation.Placed.{Grows, Grows-refl, insert-Grows, update-Grows}
use smart_classroom.Api.Reservations.{transition_quietly}
use smart_classroom.Api.Hosts.{
  HostCreate, insert_host, set_sunshine_token, set_sunshine_token_endpoint,
}
use smart_classroom.Api.Agents.{set_report, heartbeat_endpoint}

pub transition-Grows :
    (host : Host) (s : HostStatus) (reason : String) (b : Bool) (now : ℕ) (w : World)
    → Grows w.db.hosts (transition_host host s reason b now w).1.db.hosts
unfolding transition_host
transition-Grows host s reason b now w = elim (Bool-cases (same_status host.status s)) [
  | inl e ↦ rw (e, if◌then◌else◌) (Grows-refl w.db.hosts)
  | inr e ↦
      rw (e, if◌then◌else◌)
        (update-Grows (λ h. h.id == host.id) (set_status s) (λ h. refl) w.db.hosts)
]

pub heartbeat-Grows :
    (settings : Settings) (now : ℕ) (report : Metadata) (host : Host) (w : World)
    → Grows w.db.hosts (heartbeat_endpoint settings now report host w).1.db.hosts
unfolding heartbeat_endpoint
heartbeat-Grows settings now report host w = λ i e.
    transition-Grows _ _ _ _ _ _ i
      (update-Grows (λ h. h.id == host.id) (set_report now report) (λ h. refl) w.db.hosts i e)

pub quietly-Grows :
    (host : Host) (s : HostStatus) (reason : String) (now : ℕ) (db db' : Db) (b : Bool)
    → transition_quietly host s reason now db ≡ ok (b, db')
    → Grows db.hosts db'.hosts
unfolding transition_quietly
quietly-Grows host s reason now db db' b e =
    let w : World = record { db = db; events = new_broker } in
    let same : (transition_host host s reason false now w).1.db ≡ db' = ground arith in
    subst (λ (d : Db). Grows db.hosts d.hosts) same (transition-Grows host s reason false now w)

pub insert_host-Grows :
    (payload : HostCreate) (db db' : Db) (h : Host)
    → insert_host payload db ≡ ok (h, db')
    → Grows db.hosts db'.hosts
unfolding insert_host
insert_host-Grows payload db db' h e =
    let same : h ∷ db.hosts ≡ db'.hosts = ground arith in
    subst (Grows db.hosts) same (insert-Grows h db.hosts)

pub sunshine-Grows :
    (i : ℕ) (t : String) (db db' : Db) (h : Host)
    → set_sunshine_token_endpoint i t db ≡ ok (h, db')
    → Grows db.hosts db'.hosts
unfolding set_sunshine_token_endpoint
sunshine-Grows i t db db' h e =
    let same : update_where (λ x. x.id == h.id) (set_sunshine_token t) db.hosts ≡ db'.hosts =
      ground arith in
    subst (Grows db.hosts) same
      (update-Grows (λ x. x.id == h.id) (set_sunshine_token t) (λ x. refl) db.hosts)
