-- ===== src/Governance/Visibility/Visit.antt =====
-- One round of `filter_capabilities`, and the induction over its rounds.
use owlclaw.Base.{
  All, Bool-cases, List, Option, Option-cases, String, [], all_of, arith, inl, inr, none, refl,
  some, suc, true, ℕ, ◌∷◌, ◌≡◌, ◌⊎◌,
}
use owlclaw.Base.Dict.{Dict}
use owlclaw.Governance.View.{CapabilityView, RunContext}
use owlclaw.Governance.Visibility.{
  Draw, FilterState, VisibilityFilter, evaluate_risk_gate, filter_from, gather_results, hinted,
  inject_quality_hint, visit,
}

-- A quality hint changes the description alone.
pub inject_quality_hint_keeps :
    (cache : Dict String String) (view : CapabilityView)
    → inject_quality_hint cache view
      ≡ record view { description = (inject_quality_hint cache view).description }
unfolding inject_quality_hint
inject_quality_hint_keeps cache view = ground arith

module _ {W : Type 0} (f : VisibilityFilter W) where
  pub hinted_keeps :
      (view : CapabilityView)
      → hinted f view ≡ record view { description = (hinted f view).description }
  unfolding hinted
  hinted_keeps view = elim (Bool-cases f.inject_quality_score) [
    | inl on_ ↦ rw on_ (inject_quality_hint_keeps f.quality_cache view)
    | inr off_ ↦ rw off_ refl
  ]

module _ {W : Type 0} (f : VisibilityFilter W) (agent_id : String) (context : RunContext) where
  -- A capability is shown only behind the risk gate and with no evaluator against it.
  pub record IsShown (d : Draw) (view : CapabilityView) (s : FilterState W) : Type 0 where
    pub passed : (evaluate_risk_gate s.gate d view context).0 ≡ none
    pub approved :
        all_of
          (λ r. r.visible)
          (gather_results f.fail_policy f.evaluators view agent_id context s.world).0
        ≡ true

  pub visit_cases :
      (d : Draw) (view : CapabilityView) (s : FilterState W)
      → ((visit f agent_id context d view s).0 ≡ none)
        ⊎ IsShown d view s × ((visit f agent_id context d view s).0 ≡ some (hinted f view))
  unfolding visit
  visit_cases d view s = elim (Option-cases (evaluate_risk_gate s.gate d view context).0) [
    | inr (why, e) ↦ inl (rw e refl)
    | inl e ↦
        elim (Bool-cases (
          all_of (λ r. r.visible)
            (gather_results f.fail_policy f.evaluators view agent_id context s.world).0)) [
              | inl ok_ ↦ inr (record { passed = e; approved = ok_ }, rw (e, ok_) refl)
              | inr bad ↦ inl (rw (e, bad) refl)
            ]
  ]

  -- What holds of every capability that a round shows holds of every capability returned.
  pub filter_from-All :
      (P : CapabilityView → Type 0) (draw : ℕ → Draw)
      → ((d : Draw) (view : CapabilityView) (s : FilterState W)
          → IsShown d view s
          → P (hinted f view))
      → (i : ℕ) (entries : List (Option CapabilityView)) (s : FilterState W)
      → All P (filter_from f agent_id context draw i entries s).0
  unfolding filter_from
  filter_from-All P draw h i [] s = tt
  filter_from-All P draw h i (none ∷ rest) s = filter_from-All P draw h i rest s
  filter_from-All P draw h i (some view ∷ rest) s =
      let s' = (visit f agent_id context (draw i) view s).1 in
      elim (visit_cases (draw i) view s) [
        | inl e ↦ rw e (filter_from-All P draw h (suc i) rest s')
        | inr (ok_, e) ↦ rw e (h (draw i) view s ok_, filter_from-All P draw h (suc i) rest s')
      ]
