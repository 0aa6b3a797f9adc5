-- ===== src/Base/Text.antt =====
-- Python's `str.strip` and `str.lower`, and the truth value of a `str`.
pub mod Strip
use Prim.Native.Nat.{◌-◌}
use Prim.Native.Char.{Char, code}
use Prim.Native.String.{String, char_at, ◌++◌}
use mathlib.Core.Path.{◌≡◌, refl}
use mathlib.Core.Bool.{Bool, true, false, not, ◌&&◌, ◌||◌}
use mathlib.Core.List.{List, [], ◌∷◌}
use text.Mathlib.Text.{◌==◌}
use owlclaw.Base.Tests.{leb, nat_eq, if◌then◌else◌}

-- `str.isspace` of one character: the code points that `str.strip()` removes.
unfoldable pub is_space : Char → Bool
is_space c =
    let n = code c in
    (leb 9 n && leb n 13)
    || (leb 28 n && leb n 32)
    || nat_eq n 133
    || nat_eq n 160
    || nat_eq n 5760
    || (leb 8192 n && leb n 8202)
    || (leb 8232 n && leb n 8233)
    || nat_eq n 8239
    || nat_eq n 8287
    || nat_eq n 12288

unfoldable pub is_empty : String → Bool
is_empty String.[] = true
is_empty (String.◌∷◌ c s) = false

-- `bool(s)`
abbrev pub truthy : String → Bool
truthy s = not (is_empty s)

unfoldable pub lstrip : String → String
lstrip String.[] = String.[]
lstrip (String.◌∷◌ c s) = let rest = lstrip s in if is_space c then rest else String.◌∷◌ c s

unfoldable pub rstrip : String → String
rstrip String.[] = String.[]
rstrip (String.◌∷◌ c s) =
    let rest = rstrip s in if is_empty rest && is_space c then String.[] else String.◌∷◌ c rest

unfoldable pub strip : String → String
unfolding lstrip rstrip is_space is_empty
strip s = rstrip (lstrip s)

-- `str.lower` on ASCII letters; every other character is left as it is.
lower_char : Char → Char
lower_char c =
    if leb b'A' (code c) && leb (code c) b'Z'
    then char_at "abcdefghijklmnopqrstuvwxyz" (code c - b'A')
    else c

unfoldable pub lower : String → String
unfolding lower_char
lower String.[] = String.[]
lower (String.◌∷◌ c s) = String.◌∷◌ (lower_char c) (lower s)

-- `x in {…}` for a set of texts
unfoldable pub member : String → List String → Bool
member s [] = false
member s (x ∷ xs) = x == s || member s xs

-- The texts of a list, joined.
abbrev pub concat : List String → String
concat [] = String.[]
concat (s ∷ ss) = s ++ concat ss

strip_test : strip "  ab c " ≡ "ab c"
unfolding strip
strip_test = refl

lower_test : lower "HiGH 2" ≡ "high 2"
unfolding lower
lower_test = refl
