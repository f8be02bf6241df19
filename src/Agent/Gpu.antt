-- ===== src/Agent/Gpu.antt =====
-- agent/smartclassroom_agent/collectors/gpu.py: what `nvidia-smi` says of the GPUs.
--
-- Floating-point numbers are a type `F`: `float` is Python's `float(text)`, none for a ValueError,
-- and `percent used total` is `round(mem_pct, 1)`.
use smart_classroom.Prelude.{
  Bool, true, false, ◌&&◌, ◌||◌, List, [], ◌∷◌, map, Option, none, some, ◌==◌, leb, if◌then◌else◌,
  Text, strip, split_on, onto_first, ℕ,
}
pub mod Lines
pub mod Table

-- The line boundaries of `splitlines`.
abbrev pub is_line_break : ℕ → Bool
is_line_break c =
    (leb 10 c && leb c 13)
    || (leb 28 c && leb c 30)
    || (c == 0x85)
    || (c == 0x2028)
    || (c == 0x2029)

-- The lines of a text; `after_cr` tells whether the character before it was a carriage return, with
-- which a line feed makes one boundary.
unfoldable pub lines_from : Bool → Text → List Text
lines_from after_cr [] = []
lines_from after_cr (c ∷ s) =
    let rest = lines_from false s in
    let rest_after_cr = lines_from true s in
    if after_cr && (c == 10)
    then rest
    else if c == 13
    then [] ∷ rest_after_cr
    else if is_line_break c
    then [] ∷ rest
    else onto_first c rest

abbrev pub splitlines : Text → List Text
splitlines s = lines_from false s

pub record GpuSnapshot (F : Type 0) : Type 0 where
  pub name : Text
  pub util_pct : F
  pub mem_pct : F
  pub temp_c : Option F

-- A run of `nvidia-smi`: it is not there, or raises TimeoutExpired or OSError, or ends.
pub data SmiRun : Type 0 where
  not_found raised : SmiRun
  completed : (returncode_is_0 : Bool) (stdout : Text) → SmiRun

-- `rows.append`, for a line that gives a row.
abbrev pub append_row :
    {F : Type 0} → Option (GpuSnapshot F) → List (GpuSnapshot F) → List (GpuSnapshot F)
append_row none rows = rows
append_row (some row) rows = row ∷ rows

module _ {F : Type 0} (float : Text → Option F) (percent : F → F → F) where
  -- The values of a row, none if one of the four numbers is none.
  unfoldable pub snapshot : Text → Text → Text → Text → Text → Option (GpuSnapshot F)
  snapshot name util used total temp = elim (float used) [
    | none ↦ none
    | some mem_used ↦ elim (float total) [
      | none ↦ none
      | some mem_total ↦ elim (float util) [
        | none ↦ none
        | some util_pct ↦ elim (float temp) [
          | none ↦ none
          | some temp_c ↦ some (record {
            name = name;
            util_pct = util_pct;
            mem_pct = percent mem_used mem_total;
            temp_c = some temp_c;
          })
        ]
      ]
    ]
  ]

  -- The parts of one line; a row has at least five.
  unfoldable pub row_of : List Text → Option (GpuSnapshot F)
  row_of (name ∷ util ∷ used ∷ total ∷ temp ∷ rest) = snapshot name util used total temp
  row_of parts = none

  unfoldable pub parse_line : Text → Option (GpuSnapshot F)
  parse_line line = row_of (map strip (split_on 44 line))

  unfoldable pub parse_lines : List Text → List (GpuSnapshot F)
  parse_lines [] = []
  parse_lines (line ∷ lines) = append_row (parse_line line) (parse_lines lines)

  -- `_parse_nvidia_smi`
  unfoldable pub parse_nvidia_smi : Text → List (GpuSnapshot F)
  parse_nvidia_smi stdout = parse_lines (splitlines (strip stdout))

  unfoldable pub collect_gpu : SmiRun → List (GpuSnapshot F)
  collect_gpu not_found = []
  collect_gpu raised = []
  collect_gpu (completed returncode_is_0 stdout) =
      if returncode_is_0 then parse_nvidia_smi stdout else []
