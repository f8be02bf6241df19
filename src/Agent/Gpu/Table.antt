-- ===== src/Agent/Gpu/Table.antt =====
-- The table that `nvidia-smi` prints, and that it is read back row by row.
use smart_classroom.Prelude.{
  none, some, Option-cases, inl, inr, ◌≡◌, ◌≢◌, refl, ap, sym, ◌∙◌, false, List, [], ◌∷◌, ◌++◌, map,
  Option, arith, ◌==◌, if◌then◌else◌, Text, is_space, lstrip, rstrip, strip, Lacks,
}
use mathlib.Core.List.{append_assoc}
use smart_classroom.Agent.Gpu.{
  is_line_break, lines_from, GpuSnapshot, append_row, snapshot, row_of, parse_line, parse_lines,
  parse_nvidia_smi,
}
use smart_classroom.Agent.Gpu.Lines.{
  split_on_separator, split_on_none, lines_from_feed, lines_from_one, rstrip_feed, rstrip_append,
  Lacks-append,
}

-- The first character is there and is no white space.
abbrev pub Begins : Text → Type 0
Begins [] = ⊥
Begins (c ∷ s) = is_space c ≡ false

-- A value that a cell of the table can hold: not empty, without white space at its ends, and without
-- commas and line breaks.
pub record IsCell (s : Text) : Type 0 where
  pub begins : Begins s
  pub ends : rstrip s ≡ s
  pub no_comma : Lacks (λ c. c == 44) s
  pub no_break : Lacks is_line_break s

pub record Row : Type 0 where
  pub name : Text
  pub util : Text
  pub used : Text
  pub total : Text
  pub temp : Text

pub record IsRow (r : Row) : Type 0 where
  pub name : IsCell r.name
  pub util : IsCell r.util
  pub used : IsCell r.used
  pub total : IsCell r.total
  pub temp : IsCell r.temp

abbrev pub AllRows : List Row → Type 0
AllRows [] = Unit
AllRows (r ∷ rows) = IsRow r × AllRows rows

-- The cells, a comma and a space between two.
abbrev pub print_row : Row → Text
print_row r =
    r.name
    ++ (44 ∷ 32 ∷ (r.util ++ (44 ∷ 32 ∷ (r.used ++ (44 ∷ 32 ∷ (r.total ++ (44 ∷ 32 ∷ r.temp)))))))

-- The output: one line for each row.
abbrev pub print_table : List Row → Text
print_table [] = []
print_table (r ∷ rows) = print_row r ++ (10 ∷ print_table rows)

strip_cell : (s : Text) → IsCell s → strip s ≡ s
unfolding strip
strip_cell [] h = absurd h.begins
strip_cell (c ∷ s) h = rw (h.begins, if◌then◌else◌) h.ends

strip_spaced : (s : Text) → IsCell s → strip (32 ∷ s) ≡ s
unfolding strip
strip_spaced s h = strip_cell s h

filled : (s : Text) → IsCell s → s ≢ []
filled [] h e = h.begins
filled (c ∷ s) h e = ground arith

row_no_break : (r : Row) → IsRow r → Lacks is_line_break (print_row r)
row_no_break r h = Lacks-append _ r.name _ h.name.no_break (
  refl,
  (
    refl,
    Lacks-append _ r.util _ h.util.no_break (
      refl,
      (
        refl,
        Lacks-append _ r.used _ h.used.no_break (
          refl,
          (refl, Lacks-append _ r.total _ h.total.no_break (refl, (refl, h.temp.no_break))),
        ),
      ),
    ),
  ),
)

-- A text that is not empty and ends without white space.
abbrev Ends : Text → Type 0
Ends s = (rstrip s ≡ s) × (s ≢ [])

Ends-append : (a b : Text) → Ends b → Ends (a ++ b)
Ends-append a b h = (rstrip_append a b h.0 h.1, full a)
  where
    full : (a : Text) → a ++ b ≢ []
    full [] e = h.1 e
    full (c ∷ a) e = ground arith

Ends-comma : (a b : Text) → Ends b → Ends (a ++ (44 ∷ 32 ∷ b))
Ends-comma a b h = Ends-append a (44 ∷ 32 ∷ b) (Ends-append (44 ∷ 32 ∷ []) b h)

row-Ends : (r : Row) → IsRow r → Ends (print_row r)
row-Ends r h = Ends-comma r.name _ (
    Ends-comma r.util _
      (Ends-comma r.used _ (Ends-comma r.total _ (h.temp.ends, filled r.temp h.temp))))

-- The lines of the table without the last line break.
lines_of : List Row → Text
lines_of [] = []
lines_of (r ∷ []) = print_row r
lines_of (r ∷ q ∷ rows) = print_row r ++ (10 ∷ lines_of (q ∷ rows))

print_table-lines :
    (r : Row) (rows : List Row) → print_table (r ∷ rows) ≡ lines_of (r ∷ rows) ++ (10 ∷ [])
unfolding lines_of
print_table-lines r [] = refl
print_table-lines r (q ∷ rows) =
    rw (print_table-lines q rows)
      (sym (append_assoc (print_row r) (10 ∷ lines_of (q ∷ rows)) (10 ∷ [])))

lines-Ends : (r : Row) (rows : List Row) → AllRows (r ∷ rows) → Ends (lines_of (r ∷ rows))
unfolding lines_of
lines-Ends r [] h = row-Ends r h.0
lines-Ends r (q ∷ rows) h =
    Ends-append (print_row r) _ (Ends-append (10 ∷ []) _ (lines-Ends q rows h.1))

one_line : (s : Text) → s ≢ [] → Lacks is_line_break s → lines_from false s ≡ s ∷ []
one_line [] n h = absurd (n refl)
one_line (c ∷ s) n h = lines_from_one c s h

lstrip_begun : (a b : Text) → Begins a → lstrip (a ++ b) ≡ a ++ b
unfolding lstrip
lstrip_begun [] b h = absurd h
lstrip_begun (c ∷ a) b h = rw (h, if◌then◌else◌) refl

table_begins :
    (r : Row) (rows : List Row) → IsRow r → lstrip (print_table (r ∷ rows)) ≡ print_table (r ∷ rows)
table_begins r rows h = rw append_assoc (lstrip_begun r.name _ h.name.begins)

strip-print_table :
    (r : Row) (rows : List Row)
    → AllRows (r ∷ rows)
    → strip (print_table (r ∷ rows)) ≡ lines_of (r ∷ rows)
unfolding strip
strip-print_table r rows h =
    ap rstrip (table_begins r rows h.0 ∙ print_table-lines r rows)
    ∙ rstrip_feed (lines_of (r ∷ rows))
    ∙ (lines-Ends r rows h).0

splitlines-lines :
    (r : Row) (rows : List Row)
    → AllRows (r ∷ rows)
    → lines_from false (lines_of (r ∷ rows)) ≡ map print_row (r ∷ rows)
unfolding lines_of
splitlines-lines r [] h = one_line (print_row r) (row-Ends r h.0).1 (row_no_break r h.0)
splitlines-lines r (q ∷ rows) h =
    lines_from_feed _ _ (row_no_break r h.0)
    ∙ ap (λ ls. print_row r ∷ ls) (splitlines-lines q rows h.1)

module _ {F : Type 0} (float : Text → Option F) (percent : F → F → F) where
  parse_row :
      (r : Row)
      → IsRow r
      → parse_line float percent (print_row r)
        ≡ snapshot float percent r.name r.util r.used r.total r.temp
  unfolding parse_line row_of
  parse_row r h =
      rw
        (
          split_on_separator 44 r.name
              (32 ∷ (r.util ++ (44 ∷ 32 ∷ (r.used ++ (44 ∷ 32 ∷ (r.total ++ (44 ∷ 32 ∷ r.temp)))))))
              h.name.no_comma,
          split_on_separator 44 (32 ∷ r.util)
              (32 ∷ (r.used ++ (44 ∷ 32 ∷ (r.total ++ (44 ∷ 32 ∷ r.temp)))))
              (refl, h.util.no_comma),
          split_on_separator 44 (32 ∷ r.used) (32 ∷ (r.total ++ (44 ∷ 32 ∷ r.temp)))
              (refl, h.used.no_comma),
          split_on_separator 44 (32 ∷ r.total) (32 ∷ r.temp) (refl, h.total.no_comma),
          split_on_none 44 (32 ∷ r.temp) (refl, h.temp.no_comma),
          strip_cell r.name h.name,
          strip_spaced r.util h.util,
          strip_spaced r.used h.used,
          strip_spaced r.total h.total,
          strip_spaced r.temp h.temp,
        )
        refl

  -- The snapshot of a row whose four cells are numbers, the memory as a share of the total.
  abbrev pub reading : Text → Option F → Option F → Option F → Option F → Option (GpuSnapshot F)
  reading name (some util) (some used) (some total) (some temp) =
      some
        (record { name = name; util_pct = util; mem_pct = percent used total; temp_c = some temp })
  reading name none used total temp = none
  reading name (some util) none total temp = none
  reading name (some util) (some used) none temp = none
  reading name (some util) (some used) (some total) none = none

  abbrev with_reading : Option (GpuSnapshot F) → List (GpuSnapshot F) → List (GpuSnapshot F)
  with_reading none rest = rest
  with_reading (some g) rest = g ∷ rest

  -- What the rows say, without those that have a cell that is no number.
  pub readings : List Row → List (GpuSnapshot F)
  readings [] = []
  readings (r ∷ rows) =
      with_reading (reading r.name (float r.util) (float r.used) (float r.total) (float r.temp))
        (readings rows)

  snapshot-reading :
      (r : Row)
      → snapshot float percent r.name r.util r.used r.total r.temp
        ≡ reading r.name (float r.util) (float r.used) (float r.total) (float r.temp)
  unfolding snapshot
  snapshot-reading r = elim (Option-cases (float r.util)) [
    | inl u ↦ ground (arith, u)
    | inr (a, u) ↦ elim (Option-cases (float r.used)) [
      | inl v ↦ ground (arith, u, v)
      | inr (b, v) ↦ elim (Option-cases (float r.total)) [
        | inl w ↦ ground (arith, u, v, w)
        | inr (c, w) ↦ elim (Option-cases (float r.temp)) [
          | inl x ↦ ground (arith, u, v, w, x)
          | inr (d, x) ↦ ground (arith, u, v, w, x)
        ]
      ]
    ]
  ]

  append_row-with_reading :
      (o : Option (GpuSnapshot F)) (rest : List (GpuSnapshot F))
      → append_row o rest ≡ with_reading o rest
  append_row-with_reading none rest = refl
  append_row-with_reading (some g) rest = refl

  parse_lines-print :
      (rows : List Row)
      → AllRows rows
      → parse_lines float percent (map print_row rows) ≡ readings rows
  unfolding parse_lines readings
  parse_lines-print [] h = refl
  parse_lines-print (r ∷ rows) h =
      rw (parse_row r h.0, parse_lines-print rows h.1, snapshot-reading r)
        (append_row-with_reading _ (readings rows))

  -- The output of `nvidia-smi` for a table of rows is read back row by row: each row gives its name
  -- and its readings, and a row with a number that Python does not read is left out and costs no other
  -- row. The cells are not empty, have no white space at their ends, no comma and no line break.
  pub parse_nvidia_smi-print_table :
      (rows : List Row)
      → AllRows rows
      → parse_nvidia_smi float percent (print_table rows) ≡ readings rows
  unfolding parse_nvidia_smi readings parse_lines lines_from strip
  parse_nvidia_smi-print_table [] h = refl
  parse_nvidia_smi-print_table (r ∷ rows) h =
      rw (strip-print_table r rows h, splitlines-lines r rows h) (parse_lines-print (r ∷ rows) h)
