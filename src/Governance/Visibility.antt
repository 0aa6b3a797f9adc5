-- ===== src/Governance/Visibility.antt =====
-- owlclaw/governance/visibility.py: `VisibilityFilter`.
-- What the evaluators read and write outside the filter is a state `W`; they run one after the
-- other, in the order in which `gather` starts them. A call of an evaluator ends in an `Outcome`.
-- The cancellation of the whole task is left out. `draw i` gives the time and the fresh id that
-- the risk gate would take at the i-th capability; a quality score is its text to three decimals.
-- The code writes a quality hint into the caller's object; here the returned view holds it.
pub mod Visit
pub mod Gate
pub mod Veto
pub mod Stateful
pub mod Breaker
mod Examples
use mathlib.Core.Option
use owlclaw.Base.{
  Bool, List, Option, String, [], all_of, concat, false, if◌then◌else◌, is_empty, lower, none, refl,
  some, string_eq, string_pair_eq, strip, suc, true, truthy, ℕ, ◌++◌, ◌==◌, ◌∷◌, ◌≡◌,
}
use owlclaw.Base.Dict.{Dict, get, put}
use owlclaw.Governance.View.{CapabilityView, FilterResult, RunContext, hidden, is_confirmed, shown}
use owlclaw.Security.RiskGate.{RiskDecision, RiskGate, execute, pause, reject}
use text.Mathlib.Text.{find?}
use owlclaw.Security.RiskGate

-- How the call of an evaluator ends.
pub data Outcome : Type 0 where
  returned : FilterResult → Outcome
  returned_other timed_out raised : Outcome

abbrev pub Evaluator : Type 0 → Type 0
Evaluator W = CapabilityView → String → RunContext → W → Outcome × W

pub data FailPolicy : Type 0 where
  open_policy close_policy : FailPolicy

-- The policy that `__init__` accepts; `none` is its ValueError.
unfoldable pub parse_policy : String → Option FailPolicy
parse_policy fail_policy =
    let normalized = lower (strip fail_policy) in
    if normalized == "open"
    then some open_policy
    else if normalized == "close"
    then some close_policy
    else none

pub record VisibilityFilter (W : Type 0) : Type 0 where
  pub fail_policy : FailPolicy
  pub evaluators : List (Evaluator W)
  pub inject_quality_score : Bool
  pub quality_cache : Dict String String

-- `__init__`, but for the timeout, which an `Outcome` stands for.
unfoldable pub new_filter : {W : Type 0} → String → Option (VisibilityFilter W)
unfolding parse_policy
new_filter fail_policy =
    Option.map
      (λ policy. record {
        fail_policy = policy;
        evaluators = [];
        inject_quality_score = false;
        quality_cache = [];
      })
      (parse_policy fail_policy)

-- `register_evaluator`, for an object that has `evaluate`
unfoldable pub register_evaluator :
    {W : Type 0} → VisibilityFilter W → Evaluator W → VisibilityFilter W
register_evaluator f evaluator = record f { evaluators = f.evaluators ++ evaluator ∷ [] }

-- `{str(name).strip(): float(score) for … if str(name).strip()}`
unfoldable pub clean_scores : Dict String String → Dict String String → Dict String String
clean_scores cache [] = cache
clean_scores cache ((name, score) ∷ rest) =
    clean_scores (if is_empty (strip name) then cache else put cache (strip name) score) rest

-- `configure_quality_score_injection`
unfoldable pub configure_quality_score_injection :
    {W : Type 0} → VisibilityFilter W → Bool → Option (Dict String String) → VisibilityFilter W
unfolding clean_scores
configure_quality_score_injection f enabled none = record f { inject_quality_score = enabled }
configure_quality_score_injection f enabled (some scores) = record f {
  inject_quality_score = enabled;
  quality_cache = clean_scores [] scores;
}

-- `_handle_evaluator_failure`
unfoldable pub handle_evaluator_failure : FailPolicy → FilterResult
handle_evaluator_failure close_policy = hidden "constraint_evaluator_error"
handle_evaluator_failure open_policy = shown

-- The result that `_safe_evaluate` makes of an outcome.
unfoldable pub settle : FailPolicy → Outcome → FilterResult
unfolding handle_evaluator_failure
settle policy (returned result) = result
settle policy _ = handle_evaluator_failure policy

abbrev pub found_in : String → String → Bool
found_in text hint = elim (find? text hint) [ none ↦ false | some i ↦ true ]

-- `_inject_quality_hint`
unfoldable pub inject_quality_hint : Dict String String → CapabilityView → CapabilityView
inject_quality_hint cache view = elim (get cache view.name) [
  | none ↦ view
  | some score ↦
      let hint = concat ("[quality_score=" ∷ score ∷ "]" ∷ []) in
      if found_in view.description hint
      then view
      else if truthy view.description
      then record view { description = concat (view.description ∷ " " ∷ hint ∷ []) }
      else record view { description = hint }
]

abbrev pub blocked_by : RiskDecision → Option String
blocked_by execute = none
blocked_by pause = some "requires_confirmation"
blocked_by reject = some "risk_rejected"

pub blocked_by-none : (decision : RiskDecision) → blocked_by decision ≡ none → decision ≡ execute
blocked_by-none execute h = refl
blocked_by-none pause h = cc
blocked_by-none reject h = cc

pub record Draw : Type 0 where
  pub now : ℕ
  pub op_id : String

-- `_evaluate_risk_gate`
unfoldable pub evaluate_risk_gate :
    RiskGate → Draw → CapabilityView → RunContext → Option String × RiskGate
evaluate_risk_gate gate draw view context =
    if is_confirmed context view.name
    then (none, gate)
    else let (gate', decision, op) =
        RiskGate.evaluate gate draw.now draw.op_id view.name view.risk_level
          view.requires_confirmation 0 in
      (blocked_by decision, gate')

pub record FilterState (W : Type 0) : Type 0 where
  pub gate : RiskGate
  pub world : W

abbrev pub add_shown : Option CapabilityView → List CapabilityView → List CapabilityView
add_shown none views = views
add_shown (some view) views = view ∷ views

module _ {W : Type 0} where
  unfoldable pub hinted : VisibilityFilter W → CapabilityView → CapabilityView
  hinted f view = if f.inject_quality_score then inject_quality_hint f.quality_cache view else view

  -- The evaluations that `gather` collects for one capability.
  unfoldable pub gather_results :
      FailPolicy
      → List (Evaluator W)
      → CapabilityView
      → String
      → RunContext
      → W
      → List FilterResult × W
  gather_results policy [] view agent_id context w = ([], w)
  gather_results policy (evaluator ∷ rest) view agent_id context w =
      let (outcome, w') = evaluator view agent_id context w in
      let (results, w'') = gather_results policy rest view agent_id context w' in
      (settle policy outcome ∷ results, w'')

  -- The rest of a round, behind the reason for which the risk gate blocks it.
  unfoldable pub visit_after :
      VisibilityFilter W
      → String
      → RunContext
      → CapabilityView
      → FilterState W
      → RiskGate
      → Option String
      → Option CapabilityView × FilterState W
  visit_after f agent_id context view s gate' (some why) = (none, record s { gate = gate' })
  visit_after f agent_id context view s gate' none =
      let (results, w') = gather_results f.fail_policy f.evaluators view agent_id context s.world in
      (
        if all_of (λ r. r.visible) results then some (hinted f view) else none,
        record { gate = gate'; world = w' },
      )

  -- One round of the loop of `filter_capabilities`.
  unfoldable pub visit :
      VisibilityFilter W
      → String
      → RunContext
      → Draw
      → CapabilityView
      → FilterState W
      → Option CapabilityView × FilterState W
  unfolding visit_after
  visit f agent_id context draw view s =
      let (reason, gate') = evaluate_risk_gate s.gate draw view context in
      visit_after f agent_id context view s gate' reason

  -- `filter_capabilities`; an entry that is no `CapabilityView` is `none`, and is skipped.
  unfoldable pub filter_from :
      VisibilityFilter W
      → String
      → RunContext
      → (ℕ → Draw)
      → ℕ
      → List (Option CapabilityView)
      → FilterState W
      → List CapabilityView × FilterState W
  filter_from f agent_id context draw i [] s = ([], s)
  filter_from f agent_id context draw i (none ∷ rest) s =
      filter_from f agent_id context draw i rest s
  filter_from f agent_id context draw i (some view ∷ rest) s =
      let (shown_view, s') = visit f agent_id context (draw i) view s in
      let (views, s'') = filter_from f agent_id context draw (suc i) rest s' in
      (add_shown shown_view views, s'')

  unfoldable pub filter_capabilities :
      VisibilityFilter W
      → String
      → RunContext
      → (ℕ → Draw)
      → List (Option CapabilityView)
      → FilterState W
      → List CapabilityView × FilterState W
  filter_capabilities f agent_id context draw = filter_from f agent_id context draw 0
