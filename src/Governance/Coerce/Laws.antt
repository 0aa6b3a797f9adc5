-- ===== src/Governance/Coerce/Laws.antt =====
-- What the coercions always return.
use owlclaw.Base.{
  All, All-append, Bool-cases, List, String, [], arith, eq_iff, false, inl, inr, is_empty, lower,
  member, refl, string_eq, string_pair_eq, strip, true, ◌++◌, ◌==◌, ◌||◌, ◌∷◌, ◌≡◌,
}
use owlclaw.Base.Text.Strip.{strip_idem}
use owlclaw.Base.Value.{Items, Value, cons, list, nil, str}
use owlclaw.Governance.Coerce.{coerce_focus, coerce_risk_level, collect_focus, risk_levels}

-- A focus entry is trimmed and not blank.
abbrev pub IsFocusEntry : String → Type 0
IsFocusEntry s = (strip s ≡ s) × (is_empty s ≡ false)

-- No entry stands twice.
abbrev pub IsDistinct : List String → Type 0
IsDistinct [] = Unit
IsDistinct (x ∷ xs) = (member x xs ≡ false) × IsDistinct xs

member-snoc :
    (s x : String) (xs : List String) → member s (xs ++ x ∷ []) ≡ (member s xs || (x == s))
unfolding member
member-snoc s x [] = ground arith
member-snoc s x (y ∷ ys) = ground (arith, member-snoc s x ys)

IsDistinct-snoc :
    (x : String) (xs : List String)
    → IsDistinct xs
    → member x xs ≡ false
    → IsDistinct (xs ++ x ∷ [])
unfolding member
IsDistinct-snoc x [] h k = (refl, tt)
IsDistinct-snoc x (y ∷ ys) h k = (
  rw member-snoc (ground (arith, eq_iff x y, eq_iff y x, h.0)),
  IsDistinct-snoc x ys h.1 (ground arith),
)

record IsFocus (out : List String) : Type 0 where
  entries : All IsFocusEntry out
  distinct : IsDistinct out

collect_focus-IsFocus :
    (out : List String) (items : Items) → IsFocus out → IsFocus (collect_focus out items)
unfolding collect_focus
collect_focus-IsFocus out nil h = h
collect_focus-IsFocus out (cons (str s) rest) h =
    elim (Bool-cases (is_empty (strip s) || member (strip s) out)) [
      | inl skip ↦ rw skip (collect_focus-IsFocus out rest h)
      | inr fresh ↦ rw fresh (
          collect_focus-IsFocus (out ++ strip s ∷ []) rest (record {
            entries =
                All-append IsFocusEntry out (strip s ∷ []) h.entries
                  ((strip_idem s, ground arith), tt);
            distinct = IsDistinct-snoc (strip s) out h.distinct (ground arith);
          }))
    ]
collect_focus-IsFocus out (cons _ rest) h = collect_focus-IsFocus out rest h

-- Whatever the value, the focus list holds trimmed texts that are not blank, each once.
pub coerce_focus-IsFocus :
    (value : Value) → All IsFocusEntry (coerce_focus value) × IsDistinct (coerce_focus value)
unfolding coerce_focus member
coerce_focus-IsFocus (str s) = elim (Bool-cases (is_empty (strip s))) [
  | inl blank ↦ rw blank (tt, tt)
  | inr solid ↦ rw solid (((strip_idem s, solid), tt), (refl, tt))
]
coerce_focus-IsFocus (list items) =
    let f = collect_focus-IsFocus [] items (record { entries = tt; distinct = tt }) in
    (f.entries, f.distinct)
coerce_focus-IsFocus _ = (tt, tt)

low_known : member "low" risk_levels ≡ true
unfolding member risk_levels
low_known = refl

-- Whatever the value, the risk level is one of the four supported ones.
pub member-coerce_risk_level : (value : Value) → member (coerce_risk_level value) risk_levels ≡ true
unfolding coerce_risk_level
member-coerce_risk_level (str s) = elim (Bool-cases (member (lower (strip s)) risk_levels)) [
  | inl known ↦ rw known known
  | inr unknown ↦ rw unknown low_known
]
member-coerce_risk_level _ = low_known
