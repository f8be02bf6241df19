-- ===== src/Agent/Service/Quoting.antt =====
-- The quoting of the registration command, against a reader of command lines.
use smart_classroom.Prelude.{
  ◌≡◌, ◌≢◌, refl, subst, ap, ◌∙◌, inl, inr, Bool, true, false, not, List, [], ◌∷◌, ◌++◌, map, none,
  ◌&&◌, arith, ◌==◌, Bool-cases, if◌then◌else◌, Text, codes, Lacks, onto_first, is_empty_text,
}
use mathlib.Core.List.{append_assoc, append-nil}
use smart_classroom.Agent.Service.{
  has_space, quote, join_words, build_nssm_install_args, quoted, exec_start,
}

-- A reader of a command line: a quotation mark opens or closes a quotation and is dropped, and a space
-- outside of quotations ends a word; it knows no other character that a shell reads itself. `q` tells whether a quotation is open.
pub split_words : Bool → Text → List Text
split_words q [] = [] ∷ []
split_words q (c ∷ s) =
    let turned = split_words (not q) s in
    let rest = split_words q s in
    if c == b'"' then turned else if (c == b' ') && not q then [] ∷ rest else onto_first c rest

-- The empty words between two spaces are none.
pub drop_empty : List Text → List Text
drop_empty [] = []
drop_empty ([] ∷ ws) = drop_empty ws
drop_empty ((c ∷ w) ∷ ws) = (c ∷ w) ∷ drop_empty ws

abbrev pub read_command : Text → List Text
read_command s = drop_empty (split_words false s)

-- A word that a command line can hold: it is not empty, and has no quotation mark.
abbrev pub IsWord : Text → Type 0
IsWord w = (w ≢ []) × Lacks (λ c. c == b'"') w

abbrev pub AllWords : List Text → Type 0
AllWords [] = Unit
AllWords (w ∷ ws) = IsWord w × AllWords ws

-- The text, put in front of the first word.
onto : Text → List Text → List Text
onto [] ws = ws
onto (c ∷ a) ws = onto_first c (onto a ws)

onto_new : (a : Text) (ws : List Text) → onto a ([] ∷ ws) ≡ a ∷ ws
unfolding onto
onto_new [] ws = refl
onto_new (c ∷ a) ws = rw (onto_new a ws) refl

split_words_inside :
    (a s : Text)
    → Lacks (λ c. c == b'"') a
    → split_words true (a ++ (b'"' ∷ s)) ≡ onto a (split_words false s)
unfolding split_words onto
split_words_inside [] s h = refl
split_words_inside (c ∷ a) s h = elim (Bool-cases (c == b' ')) [
  | inl e ↦ rw (h.0, e, if◌then◌else◌, split_words_inside a s h.1) refl
  | inr e ↦ rw (h.0, e, if◌then◌else◌, split_words_inside a s h.1) refl
]

split_words_plain :
    (a s : Text)
    → Lacks (λ c. c == b'"') a
    → has_space a ≡ false
    → split_words false (a ++ s) ≡ onto a (split_words false s)
unfolding split_words onto has_space
split_words_plain [] s h n = refl
split_words_plain (c ∷ a) s h n = elim (Bool-cases (c == b' ')) [
  | inl e ↦ absurd (ground (arith, e))
  | inr e ↦ rw (h.0, e, if◌then◌else◌, split_words_plain a s h.1 (ground (arith, e))) refl
]

split_words-quote :
    (a s : Text)
    → Lacks (λ c. c == b'"') a
    → split_words false (quote a ++ s) ≡ onto a (split_words false s)
unfolding quote split_words
split_words-quote a s h = elim (Bool-cases (has_space a)) [
  | inl e ↦ rw (e, if◌then◌else◌) (rw append_assoc (split_words_inside a s h))
  | inr e ↦ rw (e, if◌then◌else◌) (split_words_plain a s h e)
]

read-join :
    (w : Text) (ws : List Text)
    → AllWords (w ∷ ws)
    → split_words false (join_words (map quote (w ∷ ws))) ≡ w ∷ ws
unfolding join_words split_words
read-join w [] h =
    subst (λ t. split_words false t ≡ w ∷ []) (append-nil (quote w))
      (split_words-quote w [] h.0.1 ∙ onto_new w [])
read-join w (v ∷ ws) h = split_words-quote w _ h.0.1 ∙ rw (read-join v ws h.1) (onto_new w (v ∷ ws))

drop_empty_all : (ws : List Text) → AllWords ws → drop_empty ws ≡ ws
unfolding drop_empty
drop_empty_all [] h = refl
drop_empty_all ([] ∷ ws) h = absurd (h.0.0 refl)
drop_empty_all ((c ∷ w) ∷ ws) h = rw (drop_empty_all ws h.1) refl

read_command_all :
    (w : Text) (ws : List Text)
    → AllWords (w ∷ ws)
    → read_command (join_words (map quote (w ∷ ws))) ≡ w ∷ ws
read_command_all w ws h = ap drop_empty (read-join w ws h) ∙ drop_empty_all (w ∷ ws) h

unfoldable pub no_marks : Text → Bool
no_marks [] = true
no_marks (c ∷ s) = not (c == b'"') && no_marks s

plain : (s : Text) → no_marks s ≡ true → Lacks (λ c. c == b'"') s
unfolding no_marks
plain [] h = tt
plain (c ∷ s) h = (ground arith, plain s (ground arith))

-- A text is a word if a test says so.
pub word : (w : Text) → no_marks w && not (is_empty_text w) ≡ true → IsWord w
word [] h = absurd (ground arith)
word (c ∷ w) h = (λ e. ground arith, plain (c ∷ w) (ground arith))

-- This reader takes the command that the Windows instructions show for the arguments of
-- `build_nssm_install_args`, for each path of Python and of the configuration that is not empty and
-- has no quotation mark, with spaces or without.
pub quoted-read_command :
    (executable config_path : Text)
    → IsWord executable
    → IsWord config_path
    → read_command (quoted executable config_path)
      ≡ build_nssm_install_args executable config_path none (codes "nssm.exe")
unfolding quoted build_nssm_install_args no_marks
quoted-read_command [] config_path e c = absurd (e.0 refl)
quoted-read_command (x ∷ executable) config_path e c = read_command_all (codes "nssm.exe") _ (
  word _ refl,
  (
    word _ refl,
    (word _ refl, (e, (word _ refl, (word _ refl, (word _ refl, (word _ refl, (c, tt))))))),
  ),
)

abbrev pub run_args : Text → List Text → List Text
run_args py more =
    py ∷ codes "-m" ∷ codes "smartclassroom_agent" ∷ codes "run" ∷ codes "--config" ∷ more

exec_start-split :
    (py posix : Text) (w : Text) (ws : List Text)
    → Lacks (λ c. c == b'"') py
    → has_space py ≡ false
    → split_words false posix ≡ w ∷ ws
    → split_words false (exec_start py posix) ≡ run_args py (w ∷ ws)
unfolding exec_start split_words
exec_start-split py posix w ws m n h = split_words_plain py _ m n ∙ rw h (onto_new py _)

run_args-words :
    (py : Text) (more : List Text) → IsWord py → AllWords more → AllWords (run_args py more)
unfolding no_marks
run_args-words py more p m = (p, (word _ refl, (word _ refl, (word _ refl, (word _ refl, m)))))

split_words_one :
    (a : Text) → Lacks (λ c. c == b'"') a → has_space a ≡ false → split_words false a ≡ a ∷ []
unfolding split_words
split_words_one a m n =
    subst (λ t. split_words false t ≡ a ∷ []) (append-nil a)
      (split_words_plain a [] m n ∙ onto_new a [])

split_words_two :
    (a b : Text)
    → Lacks (λ c. c == b'"') a
    → Lacks (λ c. c == b'"') b
    → has_space a ≡ false
    → has_space b ≡ false
    → split_words false (a ++ (b' ' ∷ b)) ≡ a ∷ b ∷ []
unfolding split_words
split_words_two a b m n t u =
    split_words_plain a (b' ' ∷ b) m t ∙ rw (split_words_one b n u) (onto_new a (b ∷ []))

-- The line `ExecStart` of the unit has no quotation. For a path of Python without a space, it reads
-- back as the command with the configuration's path as one argument if that path has no space, and
-- with two arguments in its place if it is two such words with a space between them. No path here is
-- empty or has a quotation mark.
pub exec_start-read_command :
    (py a b : Text)
    → IsWord py
    → IsWord a
    → IsWord b
    → has_space py ≡ false
    → has_space a ≡ false
    → has_space b ≡ false
    → (read_command (exec_start py a) ≡ run_args py (a ∷ []))
      × (read_command (exec_start py (a ++ (b' ' ∷ b))) ≡ run_args py (a ∷ b ∷ []))
exec_start-read_command [] a b p m n s t u = absurd (p.0 refl)
exec_start-read_command (x ∷ py) a b p m n s t u = (
  ap drop_empty (exec_start-split (x ∷ py) a a [] p.1 s (split_words_one a m.1 t))
      ∙ drop_empty_all _ (run_args-words _ (a ∷ []) p (m, tt)),
  ap drop_empty (exec_start-split (x ∷ py) _ a (b ∷ []) p.1 s (split_words_two a b m.1 n.1 t u))
      ∙ drop_empty_all _ (run_args-words _ (a ∷ b ∷ []) p (m, (n, tt))),
)
