-- ===== src/Governance/MigrationGate/Decisions.antt =====
-- What the weight of owlclaw/governance/migration_gate.py decides about an action.
use mathlib.Core.Path.{subst}
use owlclaw.Base.{
  Bool, String, ap, arith, if◌then◌else◌, some, sym, true, ℕ, ◌<◌, ◌↔◌, ◌≡◌, ◌≤◌, ◌⊎◌,
}
use owlclaw.Base.Options.{bind-some, same_value}
use owlclaw.Base.Value.{Fields}
use owlclaw.Governance.Constraints.RateLimit.Limits.{below}
use owlclaw.Governance.MigrationGate.{
  ConfigFile, MigrationGate, MigrationOutcome, auto_execute, decide_at, evaluate_action,
  extract_weight, get_weight, observe_only, refresh_if_changed,
}
use owlclaw.Governance.MigrationGate.Weights.{IsBounded, get_weight-IsBounded}

decide_at-observe_only :
    (below : ℕ → Bool) (weight : ℕ) → (decide_at below weight ≡ observe_only) ↔ (weight ≡ 0)
unfolding decide_at
decide_at-observe_only below weight = (λ h. ground (arith, h), λ h. ground (arith, h))

decide_at-auto_execute :
    (below : ℕ → Bool) (weight : ℕ)
    → weight ≤ 100
    → (decide_at below weight ≡ auto_execute)
      ↔ (weight ≡ 100) ⊎ (0 < weight) × (below weight ≡ true)
unfolding decide_at
decide_at-auto_execute below weight k = (λ h. ground (arith, h), λ h. ground (arith, h))

-- An action is only observed exactly if its weight is 0, and runs with no approval exactly if its
-- weight is 100, or is positive and the random draw is below the probability at this weight.
pub evaluate_action_decides :
    (g g' : MigrationGate) (file : ConfigFile) (skill_name : String) (skill_owlclaw : Fields)
    (below : ℕ → Bool) (outcome : MigrationOutcome)
    → IsBounded g.weights
    → evaluate_action g file skill_name skill_owlclaw below ≡ some (g', outcome)
    → ((outcome.decision ≡ observe_only) ↔ (outcome.migration_weight ≡ 0))
      × ((outcome.decision ≡ auto_execute)
          ↔ (outcome.migration_weight ≡ 100)
            ⊎ (0 < outcome.migration_weight) × (below outcome.migration_weight ≡ true))
unfolding evaluate_action
evaluate_action_decides g g' file skill_name skill_owlclaw below outcome h e =
    let (r, found, made) =
      bind-some (get_weight g file skill_name skill_owlclaw) _ (g', outcome) e in
    let bounded = (get_weight-IsBounded g r.0 file skill_name skill_owlclaw r.1 h found).1 in
    subst
      (λ (r' : MigrationGate × MigrationOutcome).
        ((r'.1.decision ≡ observe_only) ↔ (r'.1.migration_weight ≡ 0))
        × ((r'.1.decision ≡ auto_execute)
            ↔ (r'.1.migration_weight ≡ 100)
              ⊎ (0 < r'.1.migration_weight) × (below r'.1.migration_weight ≡ true)))
      (same_value _ _ made)
      (decide_at-observe_only below r.1, decide_at-auto_execute below r.1 bounded)

-- A valid weight in the skill's own settings is the one that counts, whatever the gate holds.
pub get_weight_inline :
    (g g' : MigrationGate) (file : ConfigFile) (skill_name : String) (skill_owlclaw : Fields)
    (inline weight : ℕ)
    → extract_weight skill_owlclaw ≡ some (some inline)
    → get_weight g file skill_name skill_owlclaw ≡ some (g', weight)
    → weight ≡ inline
unfolding get_weight
get_weight_inline g g' file skill_name skill_owlclaw inline weight own e =
    let (g'', loaded, rest) =
      bind-some (if g.auto_reload then refresh_if_changed g file else some g) _ (g', weight) e in
    sym (ap (λ (r : MigrationGate × ℕ). r.1) (same_value _ _ (rw own at rest)))
