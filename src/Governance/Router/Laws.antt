-- ===== src/Governance/Router/Laws.antt =====
-- Which model the router of owlclaw/governance/router.py selects, and what it falls back to.
use owlclaw.Base.{
  All, Bool-cases, List, Option, String, [], false, inl, inr, is_empty, is_space, lstrip, none,
  refl, rstrip, some, strip, true, ◌∷◌, ◌≡◌,
}
use owlclaw.Base.Text.Strip.{strip_idem}
use owlclaw.Base.Value.{Fields, Items, Value, cons, dict, get_field, nil, str}
use owlclaw.Governance.Router.{
  ModelSelection, Router, clean_model, clean_texts, handle_model_failure, items_of, library_model,
  matches_rule, model_setting, reload_config, rule_model, select_from, select_model, selection,
  task_text,
}

-- A model's name that is not blank.
abbrev pub IsNamed : String → Type 0
IsNamed s = is_empty (strip s) ≡ false

-- A name of a fallback chain: trimmed and not blank.
abbrev pub IsCleanName : String → Type 0
IsCleanName s = (strip s ≡ s) × (is_empty s ≡ false)

abbrev pub of_texts : List String → Items
of_texts [] = nil
of_texts (s ∷ ss) = cons (str s) (of_texts ss)

abbrev pub first : List String → Option String
first [] = none
first (s ∷ ss) = some s

library_model-IsNamed : IsNamed library_model
unfolding is_empty strip lstrip rstrip is_space
library_model-IsNamed = refl

clean_model-IsNamed : (s : String) → IsNamed (clean_model s)
unfolding clean_model
clean_model-IsNamed s = elim (Bool-cases (is_empty (strip s))) [
  | inl blank ↦ rw blank library_model-IsNamed
  | inr solid ↦ rw solid (rw strip_idem solid)
]

model_setting-IsNamed : (s : String) (v : Option Value) → IsNamed (model_setting s v)
unfolding model_setting
model_setting-IsNamed s none = clean_model-IsNamed s
model_setting-IsNamed s (some (str t)) = clean_model-IsNamed t
model_setting-IsNamed s (some _) = library_model-IsNamed

-- Whatever the router held and whatever the new configuration is, the default model after a reload
-- is not blank.
pub reload_config-IsNamed :
    (r : Router) (config : Value) → IsNamed (reload_config r config).default_model
unfolding reload_config
reload_config-IsNamed r (dict config) = model_setting-IsNamed r.default_model _
reload_config-IsNamed r _ = clean_model-IsNamed r.default_model

clean_texts-IsClean : (items : Items) → All IsCleanName (clean_texts items)
unfolding clean_texts
clean_texts-IsClean nil = tt
clean_texts-IsClean (cons (str s) rest) = elim (Bool-cases (is_empty (strip s))) [
  | inl blank ↦ rw blank (clean_texts-IsClean rest)
  | inr solid ↦ rw solid ((strip_idem s, solid), clean_texts-IsClean rest)
]
clean_texts-IsClean (cons _ rest) = clean_texts-IsClean rest

rule_model-IsNamed : (s : String) (v : Value) → IsNamed s → IsNamed (rule_model s v)
unfolding rule_model
rule_model-IsNamed s (str t) h = elim (Bool-cases (is_empty (strip t))) [
  | inl blank ↦ rw blank h
  | inr solid ↦ rw solid solid
]
rule_model-IsNamed s _ h = h

-- What a caller may rely on in a selection.
abbrev pub IsUsable : Option ModelSelection → Type 0
IsUsable none = Unit
IsUsable (some s) = IsNamed s.model × All IsCleanName s.fallback

select_from-IsUsable :
    (default_model task_type : String) (rules : Items)
    → IsNamed default_model
    → IsUsable (select_from default_model task_type rules)
unfolding select_from selection
select_from-IsUsable m t nil h = tt
select_from-IsUsable m t (cons (dict rule) rest) h =
    elim (Bool-cases (matches_rule (get_field rule "task_type") t)) [
      | inl same ↦
          rw same
            (rule_model-IsNamed m _ h, clean_texts-IsClean (items_of (get_field rule "fallback")))
      | inr differs ↦ rw differs (select_from-IsUsable m t rest h)
    ]
select_from-IsUsable m t (cons _ rest) h = select_from-IsUsable m t rest h

-- After any reload, a selection names a model that is not blank, and every name of its fallback
-- chain is trimmed and not blank, whatever the rules hold.
pub select_model-IsUsable :
    (r : Router) (config task_type : Value)
    → IsUsable (select_model (reload_config r config) task_type)
unfolding select_model
select_model-IsUsable r config task_type =
    select_from-IsUsable _ _ (reload_config r config).rules (reload_config-IsNamed r config)

-- An entry of the rules that `select_model` passes over.
abbrev pub Skips : String → Value → Type 0
Skips task_type (dict rule) = matches_rule (get_field rule "task_type") task_type ≡ false
Skips task_type _ = Unit

abbrev pub AllSkip : String → List Value → Type 0
AllSkip task_type entries = All (Skips task_type) entries

abbrev pub before_rules : List Value → Items → Items
before_rules [] rest = rest
before_rules (v ∷ vs) rest = cons v (before_rules vs rest)

-- The first rule whose task type matches decides: entries before it that do not match, or are not
-- rules at all, and everything after it, make no difference.
pub select_model_first :
    (default_model : String) (task_type : Value) (before : List Value) (rule : Fields)
    (after : Items)
    → AllSkip (task_text task_type) before
    → matches_rule (get_field rule "task_type") (task_text task_type) ≡ true
    → select_model
        (record {
          rules = before_rules before (cons (dict rule) after);
          default_model = default_model;
        })
        task_type
      ≡ some (selection default_model rule)
unfolding select_model select_from
select_model_first m task before rule after skips same = go before skips
  where
    go :
        (before : List Value)
        → AllSkip (task_text task) before
        → select_from m (task_text task) (before_rules before (cons (dict rule) after))
          ≡ some (selection m rule)
    go [] h = rw same refl
    go (dict d ∷ vs) h = rw (h.0) (go vs h.1)
    go (str s ∷ vs) h = go vs h.1
    go (_ ∷ vs) h = go vs h.1

-- On a failure the first name of the chain that is text and not blank is tried, trimmed: the head of
-- the chain that `select_model` would build of the same values, and none when that is empty.
pub handle_model_failure_lem :
    (chain : Items) → handle_model_failure chain ≡ first (clean_texts chain)
unfolding handle_model_failure clean_texts
handle_model_failure_lem nil = refl
handle_model_failure_lem (cons (str s) rest) = elim (Bool-cases (is_empty (strip s))) [
  | inl blank ↦ rw blank (handle_model_failure_lem rest)
  | inr solid ↦ rw solid refl
]
handle_model_failure_lem (cons _ rest) = handle_model_failure_lem rest
