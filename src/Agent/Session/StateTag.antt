-- ===== src/Agent/Session/StateTag.antt =====
-- The search for Sunshine's state, against what it means that a text has such an element.
use smart_classroom.Prelude.{
  ℕ, ◌≡◌, ◌≢◌, refl, sym, subst, ap, inl, inr, [], ◌∷◌, ◌++◌, map, Option, none, some, arith, ◌==◌,
  Bool-cases, Option-cases, if◌then◌else◌, Text, codes, Lacks, text_eq, text_eq_sound, strip,
}
use smart_classroom.Agent.Session.{
  fold_case, after_literal, run_of, nonempty, state_here, search_state, read_state,
  query_sunshine_serverinfo, InfoReply, no_answer, active, answer,
}

-- The text has a `<state>` element with the content `group`, tags in any case.
pub record Tagged (text group : Text) : Type 0 where
  pub before : Text
  pub opening : Text
  pub closing : Text
  pub behind : Text
  pub parts : text ≡ before ++ (opening ++ (group ++ (closing ++ behind)))
  pub opens : map fold_case opening ≡ codes "<state>"
  pub closes : map fold_case closing ≡ codes "</state>"
  pub filled : group ≢ []
  pub plain : Lacks (λ c. c == b'<') group

literal_sound :
    (l s r : Text)
    → after_literal l s ≡ some r
    → (head : Text) × (s ≡ head ++ r) × (map fold_case head ≡ l)
unfolding after_literal
literal_sound [] s r h = ([], ground arith, refl)
literal_sound (x ∷ l) [] r h = absurd (ground arith)
literal_sound (x ∷ l) (c ∷ s) r h = elim (Bool-cases (fold_case c == x)) [
  | inl e ↦
      let (head, split, folded) = literal_sound l s r (ground arith) in
      (c ∷ head, cc, ground (arith, folded, e))
  | inr e ↦ absurd (ground arith)
]

literal_complete : (head r : Text) → after_literal (map fold_case head) (head ++ r) ≡ some r
unfolding after_literal
literal_complete [] r = refl
literal_complete (c ∷ head) r = ground (arith, literal_complete head r)

literal_complete_at :
    (l head r : Text) → map fold_case head ≡ l → after_literal l (head ++ r) ≡ some r
literal_complete_at l head r h =
    subst (λ m. after_literal m (head ++ r) ≡ some r) h (literal_complete head r)

run_sound : (s : Text) → (s ≡ (run_of s).0 ++ (run_of s).1) × Lacks (λ c. c == b'<') (run_of s).0
unfolding run_of
run_sound [] = (refl, tt)
run_sound (c ∷ s) = elim (Bool-cases (c == b'<')) [
  | inl e ↦ rw (e, if◌then◌else◌) (refl, tt)
  | inr e ↦
      let (split, plain) = run_sound s in rw (e, if◌then◌else◌) (ap (λ r. c ∷ r) split, (e, plain))
]

run_complete :
    (group s : Text)
    → Lacks (λ c. c == b'<') group
    → run_of (group ++ (b'<' ∷ s)) ≡ (group, b'<' ∷ s)
unfolding run_of
run_complete [] s h = refl
run_complete (c ∷ group) s h = rw (h.0, if◌then◌else◌, run_complete group s h.1) refl

nonempty_sound : (run g : Text) → nonempty run ≡ some g → (run ≡ g) × (g ≢ [])
nonempty_sound [] g h = absurd (ground arith)
nonempty_sound (c ∷ run) g h = (ground arith, λ e. ground arith)

state_here_sound : (s g : Text) → state_here s ≡ some g → Tagged s g
unfolding state_here
state_here_sound s g h = elim (Option-cases (after_literal (codes "<state>") s)) [
  | inl e ↦ absurd (ground arith)
  | inr (inner, e) ↦ elim (Option-cases (after_literal (codes "</state>") (run_of inner).1)) [
    | inl f ↦ absurd (ground arith)
    | inr (rest, f) ↦
        let (run, filled) = nonempty_sound (run_of inner).0 g (ground arith) in
        let (opening, split, opens) = literal_sound (codes "<state>") s inner e in
        let (closing, split', closes) = literal_sound (codes "</state>") (run_of inner).1 rest f in
        let (joined, plain) = run_sound inner in
        record {
          before = [];
          opening = opening;
          closing = closing;
          behind = rest;
          parts = rw (split, joined, run, split') refl;
          opens = opens;
          closes = closes;
          filled = filled;
          plain = subst (Lacks (λ c. c == b'<')) run plain;
        }
  ]
]

state_here_step :
    (s inner run more rest : Text)
    → after_literal (codes "<state>") s ≡ some inner
    → run_of inner ≡ (run, more)
    → after_literal (codes "</state>") more ≡ some rest
    → state_here s ≡ nonempty run
unfolding state_here
state_here_step s inner run more rest e f h = ground (arith, e, ap (λ p. p.0) f, ap (λ p. p.1) f, h)

is_open : (c : ℕ) → fold_case c ≡ b'<' → c ≡ b'<'
is_open c h = ground arith

state_here_complete :
    (group opening closing behind : Text)
    → map fold_case opening ≡ codes "<state>"
    → map fold_case closing ≡ codes "</state>"
    → group ≢ []
    → Lacks (λ c. c == b'<') group
    → state_here (opening ++ (group ++ (closing ++ behind))) ≡ some group
unfolding state_here
state_here_complete [] opening closing behind o c filled plain = absurd (filled refl)
state_here_complete (g ∷ group) opening [] behind o c filled plain = absurd (ground arith)
state_here_complete (g ∷ group) opening (x ∷ closing) behind o c filled plain =
    let first : x ≡ b'<' = is_open x (ground (arith, c)) in
    let inside : run_of ((g ∷ group) ++ ((x ∷ closing) ++ behind))
        ≡ (g ∷ group, x ∷ (closing ++ behind)) =
      subst
        (λ y.
          run_of ((g ∷ group) ++ (y ∷ (closing ++ behind))) ≡ (g ∷ group, y ∷ (closing ++ behind)))
        (sym first) (run_complete (g ∷ group) (closing ++ behind) plain) in
    state_here_step _ _ _ _ _
      (literal_complete_at (codes "<state>") opening ((g ∷ group) ++ ((x ∷ closing) ++ behind)) o)
      inside (literal_complete_at (codes "</state>") (x ∷ closing) behind c)

search_none_tail : (c : ℕ) (s : Text) → search_state (c ∷ s) ≡ none → search_state s ≡ none
unfolding search_state
search_none_tail c s h = elim (Option-cases (state_here (c ∷ s))) [
  | inl e ↦ ground (arith, e)
  | inr (g, e) ↦ absurd (ground (arith, e))
]

search_none : (before s : Text) → search_state (before ++ s) ≡ none → state_here s ≡ none
unfolding search_state state_here after_literal
search_none [] [] h = refl
search_none [] (c ∷ s) h = elim (Option-cases (state_here (c ∷ s))) [
  | inl e ↦ e
  | inr (g, e) ↦ absurd (ground (arith, e))
]
search_none (b ∷ before) s h = search_none before s (search_none_tail b (before ++ s) h)

search_sound : (s g : Text) → search_state s ≡ some g → Tagged s g
unfolding search_state
search_sound [] g h = absurd (ground arith)
search_sound (c ∷ s) g h = elim (Option-cases (state_here (c ∷ s))) [
  | inl e ↦
      let found = search_sound s g (ground arith) in
      record {
        before = c ∷ found.before;
        opening = found.opening;
        closing = found.closing;
        behind = found.behind;
        parts = ap (λ r. c ∷ r) found.parts;
        opens = found.opens;
        closes = found.closes;
        filled = found.filled;
        plain = found.plain;
      }
  | inr (g', e) ↦ state_here_sound (c ∷ s) g (ground arith)
]

search_complete : (s g : Text) → search_state s ≡ none → Tagged s g → ⊥
search_complete s g h found =
    let hidden =
      state_here_complete g found.opening found.closing found.behind found.opens found.closes
        found.filled found.plain in
    let missed = search_none found.before _ (subst (λ t. search_state t ≡ none) found.parts h) in
    absurd (cc (hidden, missed))

abbrev pub Finds : Text → Option Text → Type 0
Finds text (some group) = Tagged text group
Finds text none = (group : Text) → ¬ Tagged text group

-- The search for the state gives the content of a `<state>` element of the text, tags in any case,
-- content without a `<` and not empty, and it gives nothing only if the text has no such element.
pub search_state-Finds : (text : Text) → Finds text (search_state text)
search_state-Finds text = elim (Option-cases (search_state text)) [
  | inl e ↦ subst (Finds text) (sym e) (λ g. search_complete text g e)
  | inr (g, e) ↦ subst (Finds text) (sym e) (search_sound text g e)
]

read_state_active :
    (state : Text) → read_state state ≡ active → state ≡ codes "SUNSHINE_SERVER_BUSY"
unfolding read_state
read_state_active state h = elim (Bool-cases (text_eq state (codes "SUNSHINE_SERVER_BUSY"))) [
  | inl e ↦ text_eq_sound state _ e
  | inr e ↦ absurd (ground (arith, e))
]

-- A host is reported as in use only if Sunshine answered with status 200 and a text with a `<state>`
-- element whose content, less white space at its ends, is `SUNSHINE_SERVER_BUSY`.
pub query_sunshine_serverinfo_active :
    (reply : InfoReply)
    → query_sunshine_serverinfo reply ≡ active
    → (text : Text) × (group : Text) × (reply ≡ answer 200 text)
      × Tagged text group
      × (strip group ≡ codes "SUNSHINE_SERVER_BUSY")
unfolding query_sunshine_serverinfo
query_sunshine_serverinfo_active no_answer h = absurd (ground arith)
query_sunshine_serverinfo_active (answer code text) h = elim (Bool-cases (code == 200)) [
  | inr e ↦ absurd (ground arith)
  | inl e ↦ elim (Option-cases (search_state text)) [
    | inl f ↦ absurd (ground (arith, e, f))
    | inr (group, f) ↦ (
      text,
      group,
      ground (arith, e),
      search_sound text group f,
      read_state_active (strip group) (ground (arith, e, f)),
    )
  ]
]
