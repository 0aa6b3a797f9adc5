-- ===== src/Governance/View.antt =====
-- owlclaw/governance/visibility.py: `FilterResult`, `RunContext` and `CapabilityView`, which the
-- filter and the constraints share.
use owlclaw.Base.{
  Bool, List, Option, String, [], false, if◌then◌else◌, is_empty, member, none, some, strip, true,
  ◌∷◌,
}
use owlclaw.Base.Value.{Fields, Value, str}
use owlclaw.Governance.Coerce.{coerce_bool, coerce_focus, coerce_risk_level}

pub record FilterResult : Type 0 where
  pub visible : Bool
  pub reason : String

abbrev pub shown : FilterResult
shown = record { visible = true; reason = "" }

abbrev pub hidden : String → FilterResult
hidden why = record { visible = false; reason = why }

pub record RunContext : Type 0 where
  pub tenant_id : String
  pub confirmed_capabilities : Option (List String)

-- `{str(name).strip() for name in names if str(name).strip()}`
unfoldable pub clean_names : List String → List String
clean_names [] = []
clean_names (name ∷ names) =
    let rest = clean_names names in if is_empty (strip name) then rest else strip name ∷ rest

abbrev pub or_none : List String → Option (List String)
or_none [] = none
or_none (x ∷ xs) = some (x ∷ xs)

-- `RunContext.__post_init__`; `none` is its ValueError.
unfoldable pub new_context : Value → Option (List String) → Option RunContext
unfolding clean_names
new_context (str tenant_id) confirmed =
    if is_empty (strip tenant_id)
    then none
    else some (record {
      tenant_id = strip tenant_id;
      confirmed_capabilities = elim confirmed [
        | none ↦ none
        | some names ↦ or_none (clean_names names)
      ];
    })
new_context _ confirmed = none

abbrev confirmed_names : Option (List String) → List String
confirmed_names none = []
confirmed_names (some names) = names

-- `is_confirmed`
unfoldable pub is_confirmed : RunContext → String → Bool
is_confirmed context capability_name =
    let normalized = strip capability_name in
    if is_empty normalized
    then false
    else member normalized (confirmed_names context.confirmed_capabilities)

pub record CapabilityView : Type 0 where
  pub name : String
  pub description : String
  pub task_type : String
  pub constraints : Fields
  pub focus : List String
  pub risk_level : String
  pub requires_confirmation : Bool

-- `CapabilityView.__init__`
unfoldable pub new_view : String → String → String → Fields → Value → Value → Value → CapabilityView
new_view name description task_type constraints focus risk_level requires_confirmation = record {
  name = name;
  description = description;
  task_type = task_type;
  constraints = constraints;
  focus = coerce_focus focus;
  risk_level = coerce_risk_level risk_level;
  requires_confirmation = coerce_bool requires_confirmation;
}
