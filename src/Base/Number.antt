-- ===== src/Base/Number.antt =====
-- Python's `int(…)` of a text and of a number, for ASCII digits, and `str(…)` of a number.
pub mod Digits
use mathlib.Core.Option
use Prim.Native.Char.{code}
use Prim.Native.String.{char_at}
use owlclaw.Base.{
  Bool, Option, String, [], concat, false, if◌then◌else◌, leb, ltb, nat_eq, none, refl, some, strip,
  suc, true, zero, ℕ, ◌%◌, ◌&&◌, ◌*◌, ◌+◌, ◌-◌, ◌/◌, ◌∷◌, ◌≡◌,
}
use owlclaw.Base.Int.{negsuc, pos, ℤ}

digit_value : ℕ → Option ℕ
digit_value c = if leb b'0' c && leb c b'9' then some (c - b'0') else none

-- The digits of a number; one underscore may stand between two digits.
unfoldable pub read_digits : ℕ → Bool → String → Option ℕ
unfolding digit_value
read_digits acc after_digit String.[] = if after_digit then some acc else none
read_digits acc after_digit (String.◌∷◌ c s) =
    let next : Option ℕ = elim (digit_value (code c)) [
      | some d ↦ read_digits (acc * 10 + d) true s
      | none ↦ if after_digit && nat_eq (code c) b'_' then read_digits acc false s else none
    ] in
    next

abbrev pub negate : ℕ → ℤ
negate zero = pos 0
negate (suc n) = negsuc n

unfoldable pub read_signed : String → Option ℤ
unfolding read_digits
read_signed String.[] = none
read_signed (String.◌∷◌ c s) =
    if nat_eq (code c) b'-'
    then Option.map negate (read_digits 0 false s)
    else if nat_eq (code c) b'+'
    then Option.map pos (read_digits 0 false s)
    else Option.map pos (read_digits 0 false (String.◌∷◌ c s))

-- `int(s)`; `none` is its ValueError.
unfoldable pub int_of_text : String → Option ℤ
unfolding read_signed
int_of_text s = read_signed (strip s)

-- `int(x)` of the float m / (d + 1): towards zero.
abbrev pub truncate : ℤ → ℕ → ℤ
truncate (pos n) d = pos (n / suc d)
truncate (negsuc n) d = negate (suc n / suc d)

-- The digits of a number, the last ones first in the recursion; `fuel` is at least their count.
unfoldable pub decimal : ℕ → ℕ → String
decimal zero n = ""
decimal (suc fuel) n =
    let tens = decimal fuel (n / 10) in
    concat
      ((if ltb n 10 then "" else tens) ∷ String.◌∷◌ (char_at "0123456789" (n % 10)) String.[] ∷ [])

-- `str(n)`
unfoldable pub nat_to_text : ℕ → String
unfolding decimal
nat_to_text n = decimal (suc n) n

int_of_text_test : int_of_text " -1_000 " ≡ some (negsuc 999)
unfolding int_of_text strip
int_of_text_test = refl
