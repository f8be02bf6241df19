-- ===== src/Prelude/Strings.antt =====
-- `+` and `strip` of Python where the program's text is kept as a string.
use Prim.Native.Char.{code}
use Prim.Native.String.{String}
use mathlib.Core.Bool.{◌&&◌}
use text.Mathlib.Text.{◌==◌ as str_eq}
use smart_classroom.Prelude.Tests.{if◌then◌else◌}
use smart_classroom.Prelude.Texts.{is_space}

unfoldable pub append_string : String → String → String
append_string String.[] t = t
append_string (String.◌∷◌ c s) t = String.◌∷◌ c (append_string s t)

-- `strip` on strings.
unfoldable pub lstrip_string : String → String
lstrip_string String.[] = ""
lstrip_string (String.◌∷◌ c s) = if is_space (code c) then lstrip_string s else String.◌∷◌ c s

unfoldable pub rstrip_string : String → String
rstrip_string String.[] = ""
rstrip_string (String.◌∷◌ c s) =
    let rest = rstrip_string s in
    if is_space (code c) && str_eq rest "" then "" else String.◌∷◌ c rest
