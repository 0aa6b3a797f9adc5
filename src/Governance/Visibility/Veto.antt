-- ===== src/Governance/Visibility/Veto.antt =====
-- What an evaluator that fails or refuses does to the result, under each policy.
use mathlib.Core.Path.{ap₂}
use owlclaw.Base.{
  All, Bool, Bool-cases, List, Option, String, [], all_of, ap, arith, false, inl, inr, none, not,
  refl, some, suc, sym, true, ℕ, ◌++◌, ◌∙◌, ◌∷◌, ◌≡◌,
}
use owlclaw.Governance.View.{CapabilityView, RunContext}
use owlclaw.Governance.Visibility.{
  Draw, Evaluator, FilterState, Outcome, VisibilityFilter, add_shown, close_policy,
  evaluate_risk_gate, filter_capabilities, filter_from, gather_results, handle_evaluator_failure,
  hinted, open_policy, returned, settle, visit, visit_after,
}
use owlclaw.Governance.Visibility.Visit.{IsShown, filter_from-All, hinted_keeps}

abbrev pub approves : Outcome → Bool
approves (returned result) = result.visible
approves _ = false

-- `evaluator` never answers with `visible=True` for a capability of a banned name.
abbrev pub Vetoes : {W : Type 0} → (String → Bool) → String → RunContext → Evaluator W → Type 0
Vetoes {W} banned agent_id context evaluator =
    (view : CapabilityView) (w : W)
    → banned view.name ≡ true
    → approves (evaluator view agent_id context w).0 ≡ false

-- The evaluator answers with `visible=False`.
abbrev pub refuses : Outcome → Bool
refuses (returned result) = not result.visible
refuses _ = false

-- `evaluator` never answers with `visible=False`.
abbrev pub NeverHides : {W : Type 0} → String → RunContext → Evaluator W → Type 0
NeverHides {W} agent_id context evaluator =
    (view : CapabilityView) (w : W) → refuses (evaluator view agent_id context w).0 ≡ false

settle-open :
    (outcome : Outcome) → refuses outcome ≡ false → (settle open_policy outcome).visible ≡ true
unfolding settle handle_evaluator_failure
settle-open (returned result) h = ground (arith, h)
settle-open _ h = refl

settle-close : (outcome : Outcome) → (settle close_policy outcome).visible ≡ approves outcome
unfolding settle
settle-close outcome = ground arith

module _ {W : Type 0} (agent_id : String) (context : RunContext) where
  vetoed :
      (before : List (Evaluator W)) (evaluator : Evaluator W) (after : List (Evaluator W))
      (banned : String → Bool)
      → Vetoes banned agent_id context evaluator
      → (view : CapabilityView) (w : W) → banned view.name ≡ true
      → all_of
          (λ r. r.visible)
          (gather_results close_policy (before ++ evaluator ∷ after) view agent_id context w).0
        ≡ false
  unfolding gather_results
  vetoed [] evaluator after banned h view w b = rw (settle-close, h view w b) refl
  vetoed (first ∷ before) evaluator after banned h view w b =
      rw (vetoed before evaluator after banned h view _ b) (ground arith)

  unhindered :
      (evaluators : List (Evaluator W))
      → All (NeverHides agent_id context) evaluators
      → (view : CapabilityView) (w : W)
      → all_of (λ r. r.visible) (gather_results open_policy evaluators view agent_id context w).0
        ≡ true
  unfolding gather_results
  unhindered [] h view w = refl
  unhindered (first ∷ rest) h view w = rw (settle-open _ (h.0 view w)) (unhindered rest h.1 view _)

-- Under the policy `close` one evaluator that times out, raises, returns anything but a
-- `FilterResult` or refuses for each capability of a banned name keeps all of these out.
pub filter_capabilities_veto :
    {W : Type 0} (f : VisibilityFilter W) (agent_id : String) (context : RunContext)
    (draw : ℕ → Draw) (entries : List (Option CapabilityView)) (s : FilterState W)
    (before : List (Evaluator W)) (evaluator : Evaluator W) (after : List (Evaluator W))
    (banned : String → Bool)
    → f.fail_policy ≡ close_policy
    → f.evaluators ≡ before ++ evaluator ∷ after
    → Vetoes banned agent_id context evaluator
    → All
        (λ view. banned view.name ≡ false)
        (filter_capabilities f agent_id context draw entries s).0
unfolding filter_capabilities
filter_capabilities_veto f agent_id context draw entries s before evaluator after banned shuts among
      veto =
    filter_from-All f agent_id context (λ view. banned view.name ≡ false) draw
      (λ d view s' shows. rw (hinted_keeps f view) (unbanned d view s' shows)) 0 entries s
  where
    unbanned :
        (d : Draw) (view : CapabilityView) (s' : FilterState _)
        → IsShown f agent_id context d view s'
        → banned view.name ≡ false
    unbanned d view s' shows = elim (Bool-cases (banned view.name)) [
      | inr clean ↦ clean
      | inl b ↦ cc (
        vetoed agent_id context before evaluator after banned veto view s'.world b,
        shuts,
        among,
        shows.approved,
      )
    ]

gate-visit :
    {W : Type 0} (f : VisibilityFilter W) (agent_id : String) (context : RunContext) (d : Draw)
    (view : CapabilityView) (s : FilterState W)
    → (visit f agent_id context d view s).1.gate ≡ (evaluate_risk_gate s.gate d view context).1
unfolding visit
gate-visit f agent_id context d view s = go (evaluate_risk_gate s.gate d view context).0
  where
    go :
        (reason : Option String)
        → (visit_after f agent_id context view s
            (evaluate_risk_gate s.gate d view context).1
            reason).1.gate
          ≡ (evaluate_risk_gate s.gate d view context).1
    go none = refl
    go (some why) = refl

module _ {W : Type 0} (f : VisibilityFilter W) (agent_id : String) (context : RunContext)
    (opens : f.fail_policy ≡ open_policy)
    (never : All (NeverHides agent_id context) f.evaluators) where
  visit_open :
      (d : Draw) (view : CapabilityView) (s s' : FilterState W)
      → s.gate ≡ s'.gate
      → (visit f agent_id context d view s).0
        ≡ (visit (record f { evaluators = [] }) agent_id context d view s').0
  unfolding visit gather_results hinted
  visit_open d view s s' same = rw same (go (evaluate_risk_gate s'.gate d view context).0)
    where
      go :
          (reason : Option String)
          → (visit_after f agent_id context view s
              (evaluate_risk_gate s'.gate d view context).1
              reason).0
            ≡ (visit_after
                (record f { evaluators = [] })
                agent_id
                context
                view
                s'
                (evaluate_risk_gate s'.gate d view context).1
                reason).0
      go (some why) = refl
      go none = rw (opens, unhindered agent_id context f.evaluators never view s.world) refl

  filter_from_open :
      (draw : ℕ → Draw) (i : ℕ) (entries : List (Option CapabilityView)) (s s' : FilterState W)
      → s.gate ≡ s'.gate
      → (filter_from f agent_id context draw i entries s).0
        ≡ (filter_from (record f { evaluators = [] }) agent_id context draw i entries s').0
  unfolding filter_from
  filter_from_open draw i [] s s' same = refl
  filter_from_open draw i (none ∷ rest) s s' same = filter_from_open draw i rest s s' same
  filter_from_open draw i (some view ∷ rest) s s' same =
      ap₂ add_shown (visit_open (draw i) view s s' same) (
        filter_from_open draw (suc i) rest _ _ (
          gate-visit f agent_id context (draw i) view s
          ∙ ap (λ g. (evaluate_risk_gate g (draw i) view context).1) same
          ∙ sym (gate-visit (record f { evaluators = [] }) agent_id context (draw i) view s')))

-- Under the policy `open` evaluators that fail, in whatever way, and never refuse change nothing:
-- the same capabilities are returned as with no evaluator registered.
pub filter_capabilities_open :
    {W : Type 0} (f : VisibilityFilter W) (agent_id : String) (context : RunContext)
    (draw : ℕ → Draw) (entries : List (Option CapabilityView)) (s : FilterState W)
    → f.fail_policy ≡ open_policy
    → All (NeverHides agent_id context) f.evaluators
    → (filter_capabilities f agent_id context draw entries s).0
      ≡ (filter_capabilities (record f { evaluators = [] }) agent_id context draw entries s).0
unfolding filter_capabilities
filter_capabilities_open f agent_id context draw entries s opens never =
    filter_from_open f agent_id context opens never draw 0 entries s s refl
