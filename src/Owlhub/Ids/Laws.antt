-- ===== src/Owlhub/Ids/Laws.antt =====
-- Which review ids owlclaw/owlhub/review/system.py builds and accepts.
use Prim.Native.String.{◌++◌}
use Prim.Native.String.append
use text.Mathlib.TextLemmas.{append-nil, append_assoc}
use Prim.Native.Char.{Char}
use owlclaw.Base.{
  Bool, String, arith, false, is_space, lstrip, refl, rstrip, some, strip, true, ◌&&◌, ◌≡◌,
}
use owlclaw.Owlhub.Ids.{
  all_id_chars, is_component, is_id_char, is_review_id, review_id_of, some_split,
  validate_component, validate_review_id,
}

some_split_intro :
    (p : String → String → Bool) (a b : String)
    → p a b ≡ true
    → some_split p (a ++ ("-" ++ b)) ≡ true
unfolding some_split
some_split_intro p String.[] b h = rw (append.nil, append.cons, append.nil, h) refl
some_split_intro p (String.◌∷◌ c a) b h =
    rw (append.cons, some_split_intro (λ x y. p (String.◌∷◌ c x) y) a b h) (ground arith)

id_char_solid : (c : Char) → is_id_char c ≡ true → is_space c ≡ false
unfolding is_id_char is_space
id_char_solid c h = ground (arith, h)

lstrip_id : (s : String) → all_id_chars s ≡ true → lstrip s ≡ s
unfolding all_id_chars lstrip
lstrip_id String.[] h = refl
lstrip_id (String.◌∷◌ c s) h = rw (id_char_solid c (ground arith)) refl

rstrip_id : (s : String) → all_id_chars s ≡ true → rstrip s ≡ s
unfolding all_id_chars rstrip
rstrip_id String.[] h = refl
rstrip_id (String.◌∷◌ c s) h =
    rw (rstrip_id s (ground arith), id_char_solid c (ground arith)) (ground arith)

strip_id : (s : String) → all_id_chars s ≡ true → strip s ≡ s
unfolding strip
strip_id s h = rw lstrip_id (rstrip_id s h)

component_chars : (s : String) → is_component s ≡ true → all_id_chars s ≡ true
unfolding is_component
component_chars s h = ground (arith, h)

pub validate_component-valid : (s : String) → is_component s ≡ true → validate_component s ≡ true
unfolding validate_component
validate_component-valid s h = rw (strip_id s (component_chars s h)) h

all_id_chars-append :
    (a b : String) → all_id_chars a ≡ true → all_id_chars b ≡ true → all_id_chars (a ++ b) ≡ true
unfolding all_id_chars
all_id_chars-append String.[] b h k = rw append.nil k
all_id_chars-append (String.◌∷◌ c a) b h k =
    rw append.cons (ground (arith, all_id_chars-append a b (ground arith) k))

dash_chars : all_id_chars "-" ≡ true
unfolding all_id_chars is_id_char
dash_chars = refl

module _ (publisher skill_name version : String) (p : is_component publisher ≡ true)
    (s : is_component skill_name ≡ true) (v : is_component version ≡ true) where
  id_chars : all_id_chars (review_id_of publisher skill_name version) ≡ true
  id_chars = all_id_chars-append publisher _ (component_chars publisher p) (
      all_id_chars-append "-" _ dash_chars (
        all_id_chars-append skill_name _ (component_chars skill_name s)
          (all_id_chars-append "-" _ dash_chars (rw append-nil (component_chars version v)))))

  id_matches : is_review_id (review_id_of publisher skill_name version) ≡ true
  unfolding is_review_id
  id_matches =
      some_split_intro
        (λ a rest. is_component a && some_split (λ b c. is_component b && is_component c) rest)
        publisher _
        (rw p (
          some_split_intro (λ b c. is_component b && is_component c) skill_name _
            (rw (s, append-nil, v) refl)))

  -- Three valid parts make a review id that the validation accepts as it is.
  pub validate-review_id_of :
      validate_review_id (review_id_of publisher skill_name version)
      ≡ some (review_id_of publisher skill_name version)
  unfolding validate_review_id
  validate-review_id_of =
      rw (strip_id (review_id_of publisher skill_name version) id_chars, id_matches) refl

-- The id does not tell a dash inside a part from a dash between parts: two publishers get the same id.
pub review_id_of_clash :
    (p a b v : String) → review_id_of (p ++ ("-" ++ a)) b v ≡ review_id_of p (a ++ ("-" ++ b)) v
review_id_of_clash p a b v = simp append_assoc
