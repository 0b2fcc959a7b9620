-- ===== src/Base/Text.antt =====
-- What the program uses of Go's `strings`, on the characters of a text.
use Prim.Native.Nat.{ℕ}
use Prim.Native.Char.{code}
use Prim.Native.String.{String}
use mathlib.Core.Bool.{Bool, ◌&&◌, ◌||◌}
use text.Mathlib.Text.{◌==◌ as str_eq, starts_with}
use enterprise_llm_tracker.Base.Tests.{leb, ◌==◌, if◌then◌else◌}

-- `drop prefix s` without its test
unfoldable pub strip : String → String → String
strip String.[] s = s
strip (String.◌∷◌ p ps) String.[] = ""
strip (String.◌∷◌ p ps) (String.◌∷◌ c s) = strip ps s

unfoldable pub trim_prefix : String → String → String
unfolding strip
trim_prefix s prefix = if starts_with s prefix then strip prefix s else s

unfoldable pub contains : String → String → Bool
contains String.[] sub = str_eq sub ""
contains (String.◌∷◌ c s) sub = starts_with (String.◌∷◌ c s) sub || contains s sub

unfoldable pub trim_left : (ℕ → Bool) → String → String
trim_left cut String.[] = ""
trim_left cut (String.◌∷◌ c s) =
    let rest = trim_left cut s in if cut (code c) then rest else String.◌∷◌ c s

unfoldable pub trim_right : (ℕ → Bool) → String → String
trim_right cut String.[] = ""
trim_right cut (String.◌∷◌ c s) =
    let rest = trim_right cut s in if str_eq rest "" && cut (code c) then "" else String.◌∷◌ c rest

-- strings.TrimFunc
abbrev pub trim_func : (ℕ → Bool) → String → String
trim_func cut s = trim_right cut (trim_left cut s)

-- unicode.IsSpace
abbrev pub is_space : ℕ → Bool
is_space c =
    (leb 9 c && leb c 13)
    || (c == 32)
    || (c == 133)
    || (c == 160)
    || (c == 5760)
    || (leb 8192 c && leb c 8202)
    || (c == 8232)
    || (c == 8233)
    || (c == 8239)
    || (c == 8287)
    || (c == 12288)

abbrev pub trim_space : String → String
trim_space s = trim_func is_space s
