-- ===== src/Hosts/Ticks.antt =====
-- A tick of the monitor is one UPDATE: every host that was silent too long goes offline, the
-- others stay as they are, and each change is logged once and counted.
use smart_classroom.Prelude.{
  Option, none, some, ◌<◌, not, ◌↔◌, ℕ, suc, ◌+◌, ◌-◌, ◌*◌, ◌≡◌, ◌≢◌, refl, sym, ap, ◌∙◌, inl, inr,
  Bool, true, false, List, [], ◌∷◌, arith, ◌==◌, update_where, update_where-congr,
  update_where-twice, select_where, select_where_sound, select_where_complete, exists_where,
  exists_where-witness, exists_where-IsIn, All, All-IsIn, All-lookup, IsIn, Bool-cases, length,
  count_where, if◌then◌else◌,
}
use smart_classroom.Domain.Time.{second}
use smart_classroom.Domain.Settings.{Settings}
use smart_classroom.Domain.Rows.{Host, HostStatus, offline, idle, in_use, degraded, is_offline}
use smart_classroom.Hosts.Status.{World, transition_host, set_status}
use smart_classroom.Hosts.Monitor.{before_cutoff, is_stale, take_offline, run_one_tick}

-- The primary key of `hosts`.
abbrev pub HasDistinctIds : List Host → Type 0
HasDistinctIds [] = Unit
HasDistinctIds (h ∷ hosts) = All (λ x. x.id ≢ h.id) hosts × HasDistinctIds hosts

same_id :
    (a b : Host) (hosts : List Host)
    → HasDistinctIds hosts
    → IsIn a hosts
    → IsIn b hosts
    → a.id ≡ b.id
    → a ≡ b
same_id a b [] d m n e = absurd m
same_id a b (h ∷ hosts) d (inl p) (inl q) e = p ∙ sym q
same_id a b (h ∷ hosts) d (inl p) (inr n) e =
    absurd (All-lookup (λ x. x.id ≢ h.id) hosts d.0 n (sym e ∙ ap (λ (x : Host). x.id) p))
same_id a b (h ∷ hosts) d (inr m) (inl q) e =
    absurd (All-lookup (λ x. x.id ≢ h.id) hosts d.0 m (e ∙ ap (λ (x : Host). x.id) q))
same_id a b (h ∷ hosts) d (inr m) (inr n) e = same_id a b hosts d.1 m n e

abbrev has_id_in : List Host → Host → Bool
has_id_in rows x = exists_where (λ h. x.id == h.id) rows

-- The rows that the loop runs over are not offline yet.
abbrev AreUp : List Host → Type 0
AreUp = All (λ h. is_offline h.status ≡ false)

update-none : (f : Host → Host) (hosts : List Host) → update_where (λ x. false) f hosts ≡ hosts
unfolding update_where
update-none f [] = refl
update-none f (h ∷ hosts) = ap (λ r. h ∷ r) (update-none f hosts)

up-transition :
    (h : Host) (now : ℕ) (w : World)
    → is_offline h.status ≡ false
    → ((transition_host h offline "heartbeat_stale" true now w).0 ≡ true)
      × ((transition_host h offline "heartbeat_stale" true now w).1.db.hosts
          ≡ update_where (λ x. x.id == h.id) (set_status offline) w.db.hosts)
      × (length (transition_host h offline "heartbeat_stale" true now w).1.db.audit_logs
          ≡ suc (length w.db.audit_logs))
unfolding transition_host
up-transition h now w up = (ground arith, ground arith, ground arith)

take_offline-hosts :
    (now n : ℕ) (rows : List Host) (w : World)
    → AreUp rows
    → (take_offline now rows n w).1.db.hosts
      ≡ update_where (has_id_in rows) (set_status offline) w.db.hosts
unfolding take_offline exists_where
take_offline-hosts now n [] w up = sym (update-none (set_status offline) w.db.hosts)
take_offline-hosts now n (h ∷ rows) w up =
    let step = transition_host h offline "heartbeat_stale" true now w in
    take_offline-hosts now (if step.0 then n + 1 else n) rows step.1 up.1
    ∙ ap (update_where (has_id_in rows) (set_status offline)) (up-transition h now w up.0).1
    ∙ update_where-twice (λ x. x.id == h.id) (has_id_in rows) (set_status offline) (λ x. refl)
        (λ x. refl) w.db.hosts

take_offline-count :
    (now n : ℕ) (rows : List Host) (w : World)
    → AreUp rows
    → ((take_offline now rows n w).0 ≡ n + length rows)
      × (length (take_offline now rows n w).1.db.audit_logs ≡ length w.db.audit_logs + length rows)
unfolding take_offline
take_offline-count now n [] w up = (omega arith, omega arith)
take_offline-count now n (h ∷ rows) w up =
    let step = transition_host h offline "heartbeat_stale" true now w in
    let facts = up-transition h now w up.0 in
    let counted : (if step.0 then n + 1 else n) ≡ n + 1 = rw facts.0 in
    let rest = take_offline-count now (if step.0 then n + 1 else n) rows step.1 up.1 in
    (rest.0 ∙ omega (arith, counted), rest.1 ∙ omega (arith, facts.2))

stale-AreUp : (cutoff : ℕ) (hosts : List Host) → AreUp (select_where (is_stale cutoff) hosts)
unfolding select_where
stale-AreUp cutoff [] = tt
stale-AreUp cutoff (h ∷ hosts) = elim (Bool-cases (is_stale cutoff h)) [
  | inl e ↦ rw e (ground arith, stale-AreUp cutoff hosts)
  | inr e ↦ rw e (stale-AreUp cutoff hosts)
]

length-select_where :
    (p : Host → Bool) (hosts : List Host) → length (select_where p hosts) ≡ count_where p hosts
unfolding select_where count_where
length-select_where p [] = refl
length-select_where p (h ∷ hosts) = ground (arith, length-select_where p hosts)

-- Under distinct ids a host is selected exactly if its id is.
selected :
    (cutoff : ℕ) (hosts : List Host)
    → HasDistinctIds hosts
    → (x : Host) → IsIn x hosts
    → has_id_in (select_where (is_stale cutoff) hosts) x ≡ is_stale cutoff x
selected cutoff hosts d x m = elim (Bool-cases (is_stale cutoff x)) [
  | inl e ↦ rw e (
      exists_where-IsIn (λ h. x.id == h.id) x _
        (select_where_complete (is_stale cutoff) x hosts m e) (ground arith))
  | inr e ↦ elim (Bool-cases (has_id_in (select_where (is_stale cutoff) hosts) x)) [
    | inl f ↦
        let (h, n, q) = exists_where-witness (λ h. x.id == h.id) _ f in
        let (k, stale) = select_where_sound (is_stale cutoff) h hosts n in
        let same : x ≡ h = same_id x h hosts d m k (ground arith) in absurd (ground arith)
    | inr f ↦ f ∙ sym e
  ]
]

-- Not heard of since the cutoff.
abbrev pub HeardBefore : Option ℕ → ℕ → Type 0
HeardBefore none cutoff = Unit
HeardBefore (some t) cutoff = t < cutoff

abbrev pub IsSilent : ℕ → Host → Type 0
IsSilent cutoff h = (h.status ≢ offline) × HeardBefore h.last_heartbeat_at cutoff

before_cutoff-HeardBefore :
    (o : Option ℕ) (cutoff : ℕ) → (before_cutoff o cutoff ≡ true) ↔ HeardBefore o cutoff
before_cutoff-HeardBefore none cutoff = (λ h. tt, λ h. refl)
before_cutoff-HeardBefore (some t) cutoff = (λ h. ground arith, λ h. ground arith)

is_offline-eq : (s : HostStatus) → (not (is_offline s) ≡ true) ↔ (s ≢ offline)
is_offline-eq offline = (λ h. absurd (ground arith), λ h. absurd (h refl))
is_offline-eq idle = (λ h e. cc, λ h. refl)
is_offline-eq in_use = (λ h e. cc, λ h. refl)
is_offline-eq degraded = (λ h e. cc, λ h. refl)

is_stale-IsSilent : (cutoff : ℕ) (h : Host) → (is_stale cutoff h ≡ true) ↔ IsSilent cutoff h
is_stale-IsSilent cutoff h =
    let up = is_offline-eq h.status in
    let heard = before_cutoff-HeardBefore h.last_heartbeat_at cutoff in
    (λ e. (up.0 (ground arith), heard.0 (ground arith)), λ e. ground (arith, up.1 e.0, heard.1 e.1))

module _ (settings : Settings) (now : ℕ) (w : World) where
  abbrev pub cutoff_of : ℕ
  cutoff_of = now - settings.host_offline_after_seconds * second

  -- A tick takes offline each host that is not offline and that has not been heard of, or last before
  -- the time that the settings allow, and changes nothing else in the table of hosts, if no two
  -- hosts have the same id.
  pub run_one_tick-hosts :
      HasDistinctIds w.db.hosts
      → ((run_one_tick settings now w).1.db.hosts
          ≡ update_where (is_stale cutoff_of) (set_status offline) w.db.hosts)
        × ((h : Host) → (is_stale cutoff_of h ≡ true) ↔ IsSilent cutoff_of h)
  unfolding run_one_tick
  run_one_tick-hosts d = (
    take_offline-hosts now 0 _ w (stale-AreUp cutoff_of w.db.hosts)
        ∙ update_where-congr _ _ (set_status offline) w.db.hosts
            (All-IsIn _ w.db.hosts (selected cutoff_of w.db.hosts d)),
    is_stale-IsSilent cutoff_of,
  )

  -- The result of a tick is the number of stale hosts, and the audit log has one new entry for each.
  pub run_one_tick-count :
      ((run_one_tick settings now w).0 ≡ count_where (is_stale cutoff_of) w.db.hosts)
      × (length (run_one_tick settings now w).1.db.audit_logs
          ≡ length w.db.audit_logs + count_where (is_stale cutoff_of) w.db.hosts)
  unfolding run_one_tick
  run_one_tick-count =
      let c = take_offline-count now 0 _ w (stale-AreUp cutoff_of w.db.hosts) in
      let l = length-select_where (is_stale cutoff_of) w.db.hosts in
      (omega (arith, c.0, l), omega (arith, c.1, l))
