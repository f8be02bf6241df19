-- ===== src/Boot/Engine.antt =====
-- broker/app/infra/db.py: the engine and the session factory that the module keeps. An engine is
-- the number under which it was built; SQLAlchemy's own objects are left out.
use smart_classroom.Prelude.{
  ℕ, suc, ◌≡◌, refl, inl, inr, List, [], ◌∷◌, Option, none, some, Option-cases,
}

-- A factory made for an engine, or one that a test has put in.
pub data Factory : Type 0 where
  bound_to : ℕ → Factory
  given : ℕ → Factory

-- `_engine` and `_session_factory`, how many engines were built, and those that were disposed of.
pub record Pool : Type 0 where
  pub engine : Option ℕ
  pub session_factory : Option Factory
  pub built : ℕ
  pub disposed : List ℕ

abbrev pub no_pool : Pool
no_pool = record { engine = none; session_factory = none; built = 0; disposed = [] }

-- `get_engine`, with `_build_engine`.
unfoldable pub get_engine : Pool → ℕ × Pool
get_engine p = elim p.engine [
  | some e ↦ (e, p)
  | none ↦ (p.built, record p { engine = some p.built; built = suc p.built })
]

unfoldable pub get_session_factory : Pool → Factory × Pool
get_session_factory p = elim p.session_factory [
  | some f ↦ (f, p)
  | none ↦
      let (e, p') = get_engine p in (bound_to e, record p' { session_factory = some (bound_to e) })
]

unfoldable pub set_session_factory : Factory → Pool → Pool
set_session_factory f p = record p { session_factory = some f }

unfoldable pub dispose_engine : Pool → Pool
dispose_engine p = elim p.engine [
  | none ↦ p
  | some e ↦ record p { engine = none; session_factory = none; disposed = e ∷ p.disposed }
]

-- What the process does with its engine.
pub data Use : Pool → Pool → Type 0 where
  open_engine : {p : Pool} → Use p (get_engine p).1
  open_session : {p : Pool} → Use p (get_session_factory p).1
  replace : {p : Pool} (f : Factory) → Use p (set_session_factory f p)
  dispose : {p : Pool} → Use p (dispose_engine p)

pub data Used : Pool → Type 0 where
  fresh : Used no_pool
  after : {p q : Pool} → Used p → Use p q → Used q

-- The numbers from `n` down to 0, each once.
abbrev pub Downto : ℕ → List ℕ → Type 0
Downto n [] = n ≡ 0
Downto n (x ∷ xs) = (n ≡ suc x) × Downto x xs

abbrev with_current : Option ℕ → List ℕ → List ℕ
with_current none xs = xs
with_current (some e) xs = e ∷ xs

-- The engine in use and those that were disposed of are all that were built, each once.
abbrev pub LeaksNone : Pool → Type 0
LeaksNone p = Downto p.built (with_current p.engine p.disposed)

get_engine-LeaksNone : (p : Pool) → LeaksNone p → LeaksNone (get_engine p).1
unfolding get_engine
get_engine-LeaksNone p h = elim (Option-cases p.engine) [
  | inl e ↦ rw (e, get_engine) (refl, rw (e, with_current) at h)
  | inr (x, e) ↦ rw (e, get_engine) h
]

session-LeaksNone : (p : Pool) → LeaksNone p → LeaksNone (get_session_factory p).1
unfolding get_session_factory
session-LeaksNone p h = elim (Option-cases p.session_factory) [
  | inl e ↦ rw (e, get_session_factory) (get_engine-LeaksNone p h)
  | inr (x, e) ↦ rw (e, get_session_factory) h
]

dispose-LeaksNone : (p : Pool) → LeaksNone p → LeaksNone (dispose_engine p)
unfolding dispose_engine
dispose-LeaksNone p h = elim (Option-cases p.engine) [
  | inl e ↦ rw (e, dispose_engine) h
  | inr (x, e) ↦ rw (e, dispose_engine) (rw (e, with_current) at h)
]

Use-LeaksNone : {p q : Pool} → Use p q → LeaksNone p → LeaksNone q
unfolding set_session_factory
Use-LeaksNone {p = p} open_engine h = get_engine-LeaksNone p h
Use-LeaksNone {p = p} open_session h = session-LeaksNone p h
Use-LeaksNone (replace f) h = h
Use-LeaksNone {p = p} dispose h = dispose-LeaksNone p h

-- However the process uses its pool, from its start on, the engine in use and those that were disposed
-- of are all that were built, each once.
pub Used-LeaksNone : {p : Pool} → Used p → LeaksNone p
Used-LeaksNone fresh = refl
Used-LeaksNone (after u s) = Use-LeaksNone s (Used-LeaksNone u)
