-- ===== src/Governance/Coerce.antt =====
-- owlclaw/governance/visibility.py: how configuration values become fields of a `CapabilityView`.
pub mod Laws
use owlclaw.Base.{
  Bool, List, String, [], false, if◌then◌else◌, is_empty, lower, member, not, strip, true, ◌++◌,
  ◌||◌, ◌∷◌,
}
use owlclaw.Base.Value.{Items, Value, bool, cons, int, is_zero, list, nil, str}

-- `_coerce_bool`
unfoldable pub coerce_bool : Value → Bool
coerce_bool (bool b) = b
coerce_bool (int z) = not (is_zero z)
coerce_bool (str s) =
    let normalized = lower (strip s) in
    if member normalized ("1" ∷ "true" ∷ "yes" ∷ "on" ∷ [])
    then true
    else if member normalized ("0" ∷ "false" ∷ "no" ∷ "off" ∷ [])
    then false
    else false
coerce_bool _ = false

-- The loop of `_coerce_focus`; `seen` and `out` hold the same texts.
unfoldable pub collect_focus : List String → Items → List String
collect_focus out nil = out
collect_focus out (cons (str s) rest) =
    let normalized = strip s in
    collect_focus
      (if is_empty normalized || member normalized out then out else out ++ normalized ∷ []) rest
collect_focus out (cons _ rest) = collect_focus out rest

-- `_coerce_focus`
unfoldable pub coerce_focus : Value → List String
unfolding collect_focus
coerce_focus (str s) = let v = strip s in if is_empty v then [] else v ∷ []
coerce_focus (list items) = collect_focus [] items
coerce_focus _ = []

unfoldable pub risk_levels : List String
risk_levels = "low" ∷ "medium" ∷ "high" ∷ "critical" ∷ []

-- `_coerce_risk_level`
unfoldable pub coerce_risk_level : Value → String
coerce_risk_level (str s) =
    let normalized = lower (strip s) in if member normalized risk_levels then normalized else "low"
coerce_risk_level _ = "low"
