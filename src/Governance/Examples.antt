-- ===== src/Governance/Examples.antt =====
-- Runs of owlclaw/governance: the coercions, the risk confirmation and the model router.
use owlclaw.Base.{[], false, is_empty, member, none, refl, some, strip, true, ◌∷◌, ◌≡◌}
use owlclaw.Base.Int.{pos}
use owlclaw.Base.Value.{Fields, Value, cons, dict, end, field, get_field, int, list, nil, null, str}
use owlclaw.Governance.Coerce.{coerce_focus, collect_focus}
use owlclaw.Governance.Router.{
  Router, clean_model, clean_texts, find_field, handle_model_failure, matches_rule, model_setting,
  reload_config, rule_model, select_from, select_model, selection, task_text,
}
use owlclaw.Governance.Router.Laws.{IsUsable, Skips, select_model-IsUsable}
use owlclaw.Governance.View.{CapabilityView, RunContext, is_confirmed}

abbrev focus_value : Value
focus_value = list (cons (str " a ") (cons (int (pos 1)) (cons (str "a") (cons (str "b") nil))))

focus_test : coerce_focus focus_value ≡ "a" ∷ "b" ∷ []
unfolding coerce_focus collect_focus strip member
focus_test = refl

abbrev deploy : CapabilityView
deploy = record {
  name = "deploy";
  description = "";
  task_type = "ops";
  constraints = end;
  focus = [];
  risk_level = "high";
  requires_confirmation = false;
}

abbrev acme : RunContext
acme = record { tenant_id = "acme"; confirmed_capabilities = none }

unconfirmed : is_confirmed acme "deploy" ≡ false
unfolding is_confirmed member is_empty strip
unconfirmed = refl

abbrev rule : Fields
rule =
    field "task_type" (str " chat ")
      (field "fallback" (list (cons (str " b ") (cons null nil))) end)

abbrev config : Value
config = dict (
    field "rules" (list (cons null (cons (dict rule) nil))) (field "default_model" (str " m ") end))

abbrev router : Router
router = record { rules = nil; default_model = "" }

select_test :
    select_model (reload_config router config) (str "chat")
    ≡ some (record { model = "m"; fallback = "b" ∷ [] })
unfolding select_model reload_config select_from selection rule_model clean_texts matches_rule
    get_field find_field model_setting clean_model strip
select_test = refl

select_model-IsUsable_example : IsUsable (select_model (reload_config router config) (str "chat"))
select_model-IsUsable_example = select_model-IsUsable router config (str "chat")

chat_matches : matches_rule (get_field rule "task_type") (task_text (str "chat")) ≡ true
unfolding matches_rule get_field strip
chat_matches = refl

end-Skips : Skips (task_text (str "chat")) (dict end)
unfolding matches_rule get_field
end-Skips = refl

failure_test : handle_model_failure (cons (str " ") (cons (str " b ") nil)) ≡ some "b"
unfolding handle_model_failure strip
failure_test = refl
