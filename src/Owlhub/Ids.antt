-- ===== src/Owlhub/Ids.antt =====
-- owlclaw/owlhub/review/system.py: the patterns of a review id and of its parts.
pub mod Laws
use Prim.Native.Char.{Char, code}
use owlclaw.Base.{
  Bool, Option, String, [], concat, false, if◌then◌else◌, leb, nat_eq, none, some, strip, suc, true,
  ℕ, ◌&&◌, ◌||◌, ◌∷◌,
}

-- `[A-Za-z0-9._+-]`
unfoldable pub is_id_char : Char → Bool
is_id_char c =
    let n = code c in
    (leb b'A' n && leb n b'Z')
    || (leb b'a' n && leb n b'z')
    || (leb b'0' n && leb n b'9')
    || nat_eq n b'.'
    || nat_eq n b'_'
    || nat_eq n b'+'
    || nat_eq n b'-'

unfoldable pub all_id_chars : String → Bool
unfolding is_id_char
all_id_chars String.[] = true
all_id_chars (String.◌∷◌ c s) = is_id_char c && all_id_chars s

abbrev pub text_length : String → ℕ
text_length String.[] = 0
text_length (String.◌∷◌ c s) = suc (text_length s)

-- `_REVIEW_COMPONENT_PATTERN.fullmatch`
unfoldable pub is_component : String → Bool
unfolding all_id_chars
is_component s = all_id_chars s && (leb 1 (text_length s) && leb (text_length s) 128)

-- Some way to split a text at a dash fulfils `p`.
unfoldable pub some_split : (String → String → Bool) → String → Bool
some_split p String.[] = false
some_split p (String.◌∷◌ c s) =
    (nat_eq (code c) b'-' && p "" s) || some_split (λ a b. p (String.◌∷◌ c a) b) s

-- `_REVIEW_ID_PATTERN.fullmatch`
unfoldable pub is_review_id : String → Bool
unfolding is_component some_split
is_review_id =
    some_split λ a rest. is_component a && some_split (λ b c. is_component b && is_component c) rest

-- `_validate_review_component`; `false` is its ValueError.
unfoldable pub validate_component : String → Bool
unfolding is_component
validate_component value = is_component (strip value)

-- `_validate_review_id`; `none` is its ValueError.
unfoldable pub validate_review_id : String → Option String
unfolding is_review_id
validate_review_id review_id =
    if is_review_id (strip review_id) then some (strip review_id) else none

-- `f"{publisher}-{skill_name}-{version}"`
abbrev pub review_id_of : String → String → String → String
review_id_of publisher skill_name version =
    concat (publisher ∷ "-" ∷ skill_name ∷ "-" ∷ version ∷ [])
