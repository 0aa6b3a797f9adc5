-- ===== src/Governance/Visibility/Gate.antt =====
-- What the risk gate keeps from the agent, whatever the evaluators say.
use owlclaw.Base.{All, Bool-cases, List, Option, String, inl, inr, none, true, ℕ, ◌≡◌, ◌⊎◌}
use owlclaw.Governance.View.{CapabilityView, RunContext, is_confirmed}
use owlclaw.Governance.Visibility.{
  Draw, FilterState, VisibilityFilter, blocked_by-none, evaluate_risk_gate, filter_capabilities,
}
use owlclaw.Governance.Visibility.Visit.{filter_from-All, hinted_keeps}
use owlclaw.Security.RiskGate.{RiskGate, normalize_level}
use owlclaw.Security.RiskGate.Policy.{RunsAtOnce, evaluate-execute_iff}

-- A view that may be shown: confirmed, or of a level that runs with no confirmation.
abbrev pub IsCleared : RunContext → CapabilityView → Type 0
IsCleared context view =
    (is_confirmed context view.name ≡ true)
    ⊎ RunsAtOnce (normalize_level view.risk_level) view.requires_confirmation 0

passes-IsCleared :
    (gate : RiskGate) (draw : Draw) (view : CapabilityView) (context : RunContext)
    → (evaluate_risk_gate gate draw view context).0 ≡ none
    → IsCleared context view
unfolding evaluate_risk_gate
passes-IsCleared gate draw view context h = elim (Bool-cases (is_confirmed context view.name)) [
  | inl known ↦ inl known
  | inr unknown ↦
      let runs =
        evaluate-execute_iff gate draw.now draw.op_id view.name view.risk_level
          view.requires_confirmation 0 in
      inr (runs.0 (blocked_by-none _ (rw unknown at h)))
]

-- A capability is returned only if it was confirmed in the context, or if it asks for no
-- confirmation and has a level that the risk gate lets run; the evaluators cannot change that.
pub filter_capabilities-IsCleared :
    {W : Type 0} (f : VisibilityFilter W) (agent_id : String) (context : RunContext)
    (draw : ℕ → Draw) (entries : List (Option CapabilityView)) (s : FilterState W)
    → All (IsCleared context) (filter_capabilities f agent_id context draw entries s).0
unfolding filter_capabilities
filter_capabilities-IsCleared f agent_id context draw entries s =
    filter_from-All f agent_id context (IsCleared context) draw
      (λ d view s shows.
        rw (hinted_keeps f view) (passes-IsCleared s.gate d view context shows.passed))
      0 entries s
