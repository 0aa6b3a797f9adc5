-- ===== src/Governance/Visibility/Stateful.antt =====
-- owlclaw/governance/visibility.py: evaluators that read and write a state while
-- `filter_capabilities` runs.
use owlclaw.Base.{
  All, List, Option, String, [], all_of, ap, arith, false, inl, inr, none, refl, some, suc, sym,
  true, ℕ, ◌++◌, ◌∙◌, ◌∷◌, ◌≡◌, ◌≢◌,
}
use owlclaw.Governance.View.{CapabilityView, FilterResult, RunContext}
use owlclaw.Governance.Visibility.{
  Draw, Evaluator, FailPolicy, FilterState, VisibilityFilter, evaluate_risk_gate,
  filter_capabilities, filter_from, gather_results, hinted, returned, settle, visit, visit_after,
}
use owlclaw.Governance.Visibility.Visit.{IsShown, hinted_keeps, visit_cases}
use owlclaw.Security.RiskGate.{RiskGate}

abbrev pub Stays : {W : Type 0} → (W → Type 0) → String → RunContext → Evaluator W → Type 0
Stays {W} Inv agent_id context evaluator =
    (view : CapabilityView) (w : W) → Inv w → Inv (evaluator view agent_id context w).1

-- The evaluator returns a result that hides the capabilities of a name, where `Inv` holds.
abbrev pub RefusesWhile :
    {W : Type 0} → (W → Type 0) → String → String → RunContext → Evaluator W → Type 0
RefusesWhile {W} Inv name agent_id context evaluator =
    (view : CapabilityView) (w : W)
    → view.name ≡ name
    → Inv w
    → (result : FilterResult) × ((evaluator view agent_id context w).0 ≡ returned result)
      × (result.visible ≡ false)

module _ {W : Type 0} (Inv : W → Type 0) (agent_id : String) (context : RunContext) where
  gather_results-keeps :
      (policy : FailPolicy) (evaluators : List (Evaluator W)) (view : CapabilityView) (w : W)
      → All (Stays Inv agent_id context) evaluators
      → Inv w
      → Inv (gather_results policy evaluators view agent_id context w).1
  unfolding gather_results
  gather_results-keeps policy [] view w stays h = h
  gather_results-keeps policy (evaluator ∷ rest) view w (stay, stays) h =
      gather_results-keeps policy rest view (evaluator view agent_id context w).1 stays
        (stay view w h)

  refused :
      (policy : FailPolicy) (before : List (Evaluator W)) (evaluator : Evaluator W)
      (after : List (Evaluator W)) (name : String) (view : CapabilityView) (w : W)
      → All (Stays Inv agent_id context) before
      → RefusesWhile Inv name agent_id context evaluator
      → view.name ≡ name
      → Inv w
      → all_of
          (λ r. r.visible)
          (gather_results policy (before ++ evaluator ∷ after) view agent_id context w).0
        ≡ false
  unfolding gather_results settle
  refused policy [] evaluator after name view w stays refuses same h =
      let (result, returns, hides) = refuses view w same h in rw (returns, hides) refl
  refused policy (earlier ∷ before) evaluator after name view w (stay, stays) refuses same h =
      let rest =
        refused policy before evaluator after name view (earlier view agent_id context w).1 stays
          refuses same (stay view w h) in
      rw rest (ground arith)

  module _ (f : VisibilityFilter W) (stays : All (Stays Inv agent_id context) f.evaluators) where
    visit_after-keeps :
        (view : CapabilityView) (s : FilterState W) (gate : RiskGate) (reason : Option String)
        → Inv s.world
        → Inv (visit_after f agent_id context view s gate reason).1.world
    unfolding visit_after
    visit_after-keeps view s gate (some why) h = h
    visit_after-keeps view s gate none h =
        gather_results-keeps f.fail_policy f.evaluators view s.world stays h

    visit-keeps :
        (d : Draw) (view : CapabilityView) (s : FilterState W)
        → Inv s.world
        → Inv (visit f agent_id context d view s).1.world
    unfolding visit
    visit-keeps d view s h =
        let asked = evaluate_risk_gate s.gate d view context in
        visit_after-keeps view s asked.1 asked.0 h

    -- What holds of every capability that a round shows while `Inv` holds, holds of every capability
    -- returned, and `Inv` holds in the end.
    pub filter_from-All_while :
        (P : CapabilityView → Type 0) (draw : ℕ → Draw)
        → ((d : Draw) (view : CapabilityView) (s : FilterState W)
            → Inv s.world
            → IsShown f agent_id context d view s
            → P (hinted f view))
        → (i : ℕ) (entries : List (Option CapabilityView)) (s : FilterState W) → Inv s.world
        → All P (filter_from f agent_id context draw i entries s).0
          × Inv (filter_from f agent_id context draw i entries s).1.world
    unfolding filter_from
    filter_from-All_while P draw k i [] s h = (tt, h)
    filter_from-All_while P draw k i (none ∷ rest) s h = filter_from-All_while P draw k i rest s h
    filter_from-All_while P draw k i (some view ∷ rest) s h =
        let s' = (visit f agent_id context (draw i) view s).1 in
        let (later, kept) =
          filter_from-All_while P draw k (suc i) rest s' (visit-keeps (draw i) view s h) in
        elim (visit_cases f agent_id context (draw i) view s) [
          | inl e ↦ rw e (later, kept)
          | inr (ok_, e) ↦ rw e ((k (draw i) view s h ok_, later), kept)
        ]

    -- A name that one evaluator refuses while `Inv` holds, which every evaluator keeps, is in no result,
    -- under either fail policy and whatever the others answer.
    pub filter_capabilities_refused :
        (before : List (Evaluator W)) (evaluator : Evaluator W) (after : List (Evaluator W))
        (name : String) (draw : ℕ → Draw) (entries : List (Option CapabilityView))
        (s : FilterState W)
        → f.evaluators ≡ before ++ evaluator ∷ after
        → All (Stays Inv agent_id context) before
        → RefusesWhile Inv name agent_id context evaluator
        → Inv s.world
        → All (λ view. view.name ≢ name) (filter_capabilities f agent_id context draw entries s).0
          × Inv (filter_capabilities f agent_id context draw entries s).1.world
    unfolding filter_capabilities
    filter_capabilities_refused before evaluator after name draw entries s listed earlier refuses
          h =
        filter_from-All_while (λ view. view.name ≢ name) draw
          (λ d view s now_holds shows same.
            let name_kept : (hinted f view).name ≡ view.name =
              ap (λ (v : CapabilityView). v.name) (hinted_keeps f view) in
            let no : all_of (λ r. r.visible)
                  (gather_results f.fail_policy f.evaluators view agent_id context s.world).0
                ≡ false =
              rw listed (
                refused f.fail_policy before evaluator after name view s.world earlier refuses
                  (sym name_kept ∙ same) now_holds) in
            let clash : true ≡ false = sym shows.approved ∙ no in absurd (cc))
          0 entries s h
