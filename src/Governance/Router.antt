-- ===== src/Governance/Router.antt =====
-- owlclaw/governance/router.py: `Router`, which selects a model by task type.
pub mod Laws
use owlclaw.Base.{
  Bool, List, Option, String, [], false, if◌then◌else◌, is_empty, none, some, string_eq,
  string_pair_eq, strip, ◌==◌, ◌∷◌,
}
use owlclaw.Base.Value.{Fields, Items, Value, cons, dict, end, field, get_field, list, nil, str}

abbrev pub library_model : String
library_model = "gpt-4o-mini"

pub record ModelSelection : Type 0 where
  pub model : String
  pub fallback : List String

pub record Router : Type 0 where
  pub rules : Items
  pub default_model : String

-- `d.get(key, default)`, where a missing key is told from `None`.
unfoldable pub find_field : Fields → String → Option Value
find_field end key = none
find_field (field k v d) key = if k == key then some v else find_field d key

abbrev pub items_of : Value → Items
items_of (list items) = items
items_of _ = nil

unfoldable pub clean_model : String → String
clean_model s = if is_empty (strip s) then library_model else strip s

unfoldable pub model_setting : String → Option Value → String
unfolding clean_model
model_setting current none = clean_model current
model_setting current (some (str s)) = clean_model s
model_setting current (some _) = library_model

-- `reload_config`
unfoldable pub reload_config : Router → Value → Router
unfolding find_field model_setting
reload_config r (dict config) = record {
  rules = items_of (get_field config "rules");
  default_model = model_setting r.default_model (find_field config "default_model");
}
reload_config r _ = record { rules = nil; default_model = clean_model r.default_model }

-- `__init__`
unfoldable pub new_router : Value → Value → Router
unfolding reload_config model_setting
new_router config default_model =
    reload_config (record { rules = nil; default_model = model_setting "" (some default_model) })
      config

-- `[item.strip() for item in raw_fallback if isinstance(item, str) and item.strip()]`
unfoldable pub clean_texts : Items → List String
clean_texts nil = []
clean_texts (cons (str s) rest) =
    let others = clean_texts rest in if is_empty (strip s) then others else strip s ∷ others
clean_texts (cons _ rest) = clean_texts rest

-- The `task_type` of a rule, trimmed, is the one that is asked for.
unfoldable pub matches_rule : Value → String → Bool
matches_rule (str s) task_type = strip s == task_type
matches_rule _ task_type = false

unfoldable pub rule_model : String → Value → String
rule_model default_model (str s) = if is_empty (strip s) then default_model else s
rule_model default_model _ = default_model

unfoldable pub selection : String → Fields → ModelSelection
unfolding rule_model clean_texts
selection default_model rule = record {
  model = rule_model default_model (get_field rule "model");
  fallback = clean_texts (items_of (get_field rule "fallback"));
}

-- The loop of `select_model`.
unfoldable pub select_from : String → String → Items → Option ModelSelection
unfolding selection matches_rule
select_from default_model task_type nil = none
select_from default_model task_type (cons (dict rule) rest) =
    let later = select_from default_model task_type rest in
    if matches_rule (get_field rule "task_type") task_type
    then some (selection default_model rule)
    else later
select_from default_model task_type (cons _ rest) = select_from default_model task_type rest

abbrev pub task_text : Value → String
task_text (str s) = strip s
task_text _ = ""

-- `select_model`
unfoldable pub select_model : Router → Value → Option ModelSelection
unfolding select_from
select_model r task_type = select_from r.default_model (task_text task_type) r.rules

-- `handle_model_failure`
unfoldable pub handle_model_failure : Items → Option String
handle_model_failure nil = none
handle_model_failure (cons (str s) rest) =
    let next = handle_model_failure rest in if is_empty (strip s) then next else some (strip s)
handle_model_failure (cons _ rest) = handle_model_failure rest
