-- ===== src/Prelude/Text.antt =====
-- Go's `strings.TrimSpace` and the tests that the program makes with it, over the native texts.
use Prim.Native.Nat.{ℕ}
use Prim.Native.Char.{code}
use Prim.Native.String.{String}
use mathlib.Core.Bool.{Bool, ◌&&◌, ◌||◌}
use text.Mathlib.Text.{◌==◌ as str_eq}
use blueship.Prelude.Tests.{leb, ◌==◌, if◌then◌else◌}

-- `unicode.IsSpace`
unfoldable pub is_space : ℕ → Bool
is_space c =
    (leb 9 c && leb c 13)
    || c == 32
    || c == 0x85
    || c == 0xa0
    || c == 0x1680
    || (leb 0x2000 c && leb c 0x200a)
    || c == 0x2028
    || c == 0x2029
    || c == 0x202f
    || c == 0x205f
    || c == 0x3000

unfoldable pub trim_left : String → String
unfolding is_space
trim_left String.[] = ""
trim_left (String.◌∷◌ c s) = if is_space (code c) then trim_left s else String.◌∷◌ c s

unfoldable pub trim_right : String → String
unfolding is_space
trim_right String.[] = ""
trim_right (String.◌∷◌ c s) =
    let rest = trim_right s in if str_eq rest "" && is_space (code c) then "" else String.◌∷◌ c rest

unfoldable pub trim_space : String → String
unfolding trim_left trim_right
trim_space s = trim_right (trim_left s)

-- `strings.TrimSpace(s) == ""`
unfoldable pub is_blank : String → Bool
unfolding trim_space
is_blank s = str_eq (trim_space s) ""

-- SQL's `btrim(s)`: spaces only.
unfoldable pub btrim_left : String → String
btrim_left String.[] = ""
btrim_left (String.◌∷◌ c s) = if code c == 32 then btrim_left s else String.◌∷◌ c s

unfoldable pub btrim_right : String → String
btrim_right String.[] = ""
btrim_right (String.◌∷◌ c s) =
    let rest = btrim_right s in if str_eq rest "" && code c == 32 then "" else String.◌∷◌ c rest

unfoldable pub btrim : String → String
unfolding btrim_left btrim_right
btrim s = btrim_right (btrim_left s)
