-- ===== src/Base/Text.antt =====
-- The functions of Go's `strings` that the program calls, over the native texts.
use Prim.Native.Char.{Char, code}
use Prim.Native.Nat.{ℕ, ◌+◌}
use Prim.Native.String.{String}
use mathlib.Core.Bool.{Bool, true, false, ◌&&◌, ◌||◌}
use mathlib.Core.Option
use mathlib.Core.Option.{Option, none, some}
use csi_bizflycloud.Base.Tests.{nat_eq, leb, is_empty, if◌then◌else◌}

-- `strings.HasPrefix(s, p)` with `s[len(p):]`: what follows the prefix.
unfoldable pub strip_prefix : String → String → Option String
strip_prefix String.[] s = some s
strip_prefix (String.◌∷◌ c p) String.[] = none
strip_prefix (String.◌∷◌ c p) (String.◌∷◌ d s) =
    let rest = strip_prefix p s in if nat_eq (code c) (code d) then rest else none

abbrev pub is_some {ℓ} : {A : Type ℓ} → Option A → Bool
is_some none = false
is_some (some a) = true

abbrev pub has_prefix : String → String → Bool
has_prefix s p = is_some (strip_prefix p s)

abbrev pub prepend : Char → String × String → String × String
prepend c (a, b) = (String.◌∷◌ c a, b)

-- The split of a text that begins with c, from what follows a separator there, or from the split of
-- the text after c.
abbrev pub split_at : Char → Option String → Option (String × String) → Option (String × String)
split_at c (some rest) later = some ("", rest)
split_at c none later = Option.map (prepend c) later

-- `strings.SplitN(s, sep, 2)` for a separator that is not empty: the texts before and after the
-- first separator, or `none` where there is one part only.
unfoldable pub split_once : String → String → Option (String × String)
split_once sep String.[] = none
split_once sep (String.◌∷◌ c s) =
    let later = split_once sep s in split_at c (strip_prefix sep (String.◌∷◌ c s)) later

-- The code point that `unicode.ToLower` gives, exact on ASCII and on the two characters outside
-- ASCII whose lower case is in ASCII (U+0130 and U+212A). The others stay: their lower case is
-- outside ASCII, as they are, which no test of the program tells apart.
abbrev pub lower_code : ℕ → ℕ
lower_code c =
    if leb b'A' c && leb c b'Z'
    then c + 32
    else if nat_eq c 0x130
    then b'i'
    else if nat_eq c 0x212a
    then b'k'
    else c

-- `strings.HasPrefix(strings.ToLower(s), p)` for an ASCII prefix in lower case.
unfoldable pub has_prefix_folded : String → String → Bool
has_prefix_folded s String.[] = true
has_prefix_folded String.[] (String.◌∷◌ c p) = false
has_prefix_folded (String.◌∷◌ d s) (String.◌∷◌ c p) =
    let rest = has_prefix_folded s p in
    if nat_eq (code c) (lower_code (code d)) then rest else false

-- unicode.IsSpace
abbrev pub is_space : ℕ → Bool
is_space c =
    (leb 9 c && leb c 13)
    || nat_eq c 0x20
    || nat_eq c 0x85
    || nat_eq c 0xa0
    || nat_eq c 0x1680
    || (leb 0x2000 c && leb c 0x200a)
    || nat_eq c 0x2028
    || nat_eq c 0x2029
    || nat_eq c 0x202f
    || nat_eq c 0x205f
    || nat_eq c 0x3000

unfoldable pub trim_left : String → String
trim_left String.[] = ""
trim_left (String.◌∷◌ c s) =
    let rest = trim_left s in if is_space (code c) then rest else String.◌∷◌ c s

unfoldable pub trim_right : String → String
trim_right String.[] = ""
trim_right (String.◌∷◌ c s) =
    let rest = trim_right s in if is_empty rest && is_space (code c) then "" else String.◌∷◌ c rest

-- strings.TrimSpace
unfoldable pub trim_space : String → String
trim_space s = trim_left (trim_right s)
