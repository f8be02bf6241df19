-- ===== src/System/Delivery/Fitting.antt =====
-- Which payloads of the agent the broker's schema takes.
use smart_classroom.Prelude.{
  ℕ, ◌≤◌, ◌≡◌, ◌↔◌, refl, true, List, [], ◌∷◌, ◌++◌, map, Option, none, some, arith, String, Text,
  length, text_eq, All, if◌then◌else◌,
}
use smart_classroom.Api.Schemas.{
  ℤ, pos, negsuc, length_within, number_within, not_negative, optional_not_negative,
  validate_system, user_within, is_connection_state, validate_session, validate_gpus,
  validate_heartbeat, Bound,
}
use smart_classroom.Agent.Session.{ConnectionState, active, disconnected, unknown}
use smart_classroom.Agent.Gpu.{GpuSnapshot}
use smart_classroom.System.Delivery.{AgentPayload, state_text, gpu_metric, request_of}

abbrev pub IsNatural : ℤ → Type 0
IsNatural (pos n) = Unit
IsNatural (negsuc n) = ⊥

abbrev pub MayBeNatural : Option ℤ → Type 0
MayBeNatural none = Unit
MayBeNatural (some z) = IsNatural z

abbrev pub IsShortUser : Option Text → Type 0
IsShortUser none = Unit
IsShortUser (some name) = length name ≤ 64

abbrev pub FitsGpu : GpuSnapshot ℕ → Type 0
FitsGpu g = (1 ≤ length g.name) × (length g.name ≤ 128) × (g.util_pct ≤ 1000) × (g.mem_pct ≤ 1000)

-- The bounds of the broker, on what the agent collected.
pub record Fits (p : AgentPayload) : Type 0 where
  pub version : (1 ≤ length p.agent_version) × (length p.agent_version ≤ 32)
  pub load : (p.system.cpu_pct ≤ 1000) × (p.system.mem_pct ≤ 1000)
  pub uptime : IsNatural p.system.uptime_sec
  pub user : IsShortUser p.session.active_user
  pub gpus : All FitsGpu p.gpu
  pub rtt : MayBeNatural p.agent_self_rtt_ms

append-nil_iff : {A : Type 0} (xs ys : List A) → (xs ++ ys ≡ []) ↔ ((xs ≡ []) × (ys ≡ []))
append-nil_iff [] ys = (λ h. (refl, h), λ h. h.1)
append-nil_iff (x ∷ xs) ys = (λ h. absurd (ground arith), λ h. absurd (ground arith))

-- The faults of two checks, one after the other.
both :
    {P Q : Type 0} (xs ys : List (String × Bound))
    → (xs ≡ []) ↔ P
    → (ys ≡ []) ↔ Q
    → (xs ++ ys ≡ []) ↔ (P × Q)
both xs ys f g = (
  λ h. let (a, b) = (append-nil_iff xs ys).0 h in (f.0 a, g.0 b),
  λ h. (append-nil_iff xs ys).1 (f.1 h.0, g.1 h.1),
)

length_within_lem :
    (field : String) (a b n : ℕ) → (length_within field a b n ≡ []) ↔ ((a ≤ n) × (n ≤ b))
unfolding length_within
length_within_lem field a b n = (λ h. (ground arith, ground arith), λ h. ground arith)

number_within_lem : (field : String) (b n : ℕ) → (number_within field 0 b n ≡ []) ↔ (n ≤ b)
unfolding number_within
number_within_lem field b n = (λ h. ground arith, λ h. ground arith)

not_negative_lem : (field : String) (z : ℤ) → (not_negative field z ≡ []) ↔ IsNatural z
unfolding not_negative
not_negative_lem field (pos n) = (λ h. tt, λ h. refl)
not_negative_lem field (negsuc n) = (λ h. absurd (ground arith), λ h. absurd h)

optional_not_negative_lem :
    (field : String) (o : Option ℤ) → (optional_not_negative field o ≡ []) ↔ MayBeNatural o
unfolding optional_not_negative
optional_not_negative_lem field none = (λ h. tt, λ h. refl)
optional_not_negative_lem field (some z) = not_negative_lem field z

user_within_lem : (o : Option Text) → (user_within o ≡ []) ↔ IsShortUser o
unfolding user_within
user_within_lem none = (λ h. tt, λ h. refl)
user_within_lem (some name) =
    let both = length_within_lem "active_user" 0 64 (length name) in
    (λ h. (both.0 h).1, λ h. both.1 (omega arith, h))

state_known : (s : ConnectionState) → is_connection_state (some (state_text s)) ≡ true
unfolding is_connection_state text_eq
state_known active = refl
state_known disconnected = refl
state_known unknown = refl

validate_gpus_lem :
    (gs : List (GpuSnapshot ℕ)) → (validate_gpus (map gpu_metric gs) ≡ []) ↔ All FitsGpu gs
unfolding validate_gpus
validate_gpus_lem [] = (λ h. tt, λ h. refl)
validate_gpus_lem (g ∷ gs) =
    let name = length_within_lem "name" 1 128 (length g.name) in
    let util = number_within_lem "util_pct" 1000 g.util_pct in
    let mem = number_within_lem "mem_pct" 1000 g.mem_pct in
    let all = both _ _ name (both _ _ util (both _ _ mem (validate_gpus_lem gs))) in
    (
      λ h. let r = all.0 h in ((r.0.0, r.0.1, r.1.0, r.1.1.0), r.1.1.1),
      λ h. all.1 ((h.0.0, h.0.1), (h.0.2, (h.0.3, h.1))),
    )

validate_system_lem :
    (p : AgentPayload)
    → (validate_system (request_of p).system ≡ [])
      ↔ ((p.system.cpu_pct ≤ 1000) × ((p.system.mem_pct ≤ 1000) × IsNatural p.system.uptime_sec))
unfolding validate_system request_of
validate_system_lem p = both _ _ (number_within_lem "cpu_pct" 1000 p.system.cpu_pct) (
    both _ _ (number_within_lem "mem_pct" 1000 p.system.mem_pct)
      (not_negative_lem "uptime_sec" p.system.uptime_sec))

validate_session_lem :
    (p : AgentPayload)
    → (validate_session (request_of p).session ≡ []) ↔ IsShortUser p.session.active_user
unfolding validate_session request_of not_negative
validate_session_lem p =
    let user = user_within_lem p.session.active_user in
    let known = state_known p.session.connection_state in
    let parts = append-nil_iff (user_within p.session.active_user) in
    (λ h. user.0 ((parts _).0 h).0, λ h. (parts _).1 (user.1 h, rw (known, if◌then◌else◌) refl))

-- The broker takes the body that the agent makes of what it collected exactly if that is within the
-- bounds: a version of 1 to 32 characters, a load up to 100 percent, an uptime and a round trip that
-- are not negative, a user of at most 64 characters, and GPUs with names of 1 to 128 characters and
-- readings up to 100 percent.
pub request_of-Fits : (p : AgentPayload) → (validate_heartbeat (request_of p) ≡ []) ↔ Fits p
unfolding validate_heartbeat request_of
request_of-Fits p =
    let version = length_within_lem "agent_version" 1 32 (length p.agent_version) in
    let all = both _ _ version (
      both _ _ (validate_system_lem p) (
        both _ _ (validate_session_lem p) (
          both _ _ (validate_gpus_lem p.gpu)
            (optional_not_negative_lem "agent_self_rtt_ms" p.agent_self_rtt_ms)))) in
    (
      λ h.
          let r = all.0 h in
          record {
            version = r.0;
            load = (r.1.0.0, r.1.0.1.0);
            uptime = r.1.0.1.1;
            user = r.1.1.0;
            gpus = r.1.1.1.0;
            rtt = r.1.1.1.1;
          },
      λ h. all.1 (h.version, ((h.load.0, (h.load.1, h.uptime)), (h.user, (h.gpus, h.rtt)))),
    )
