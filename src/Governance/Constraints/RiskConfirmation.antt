-- ===== src/Governance/Constraints/RiskConfirmation.antt =====
-- owlclaw/governance/constraints/risk_confirmation.py: `RiskConfirmationConstraint`.
use owlclaw.Base.{
  Bool, [], arith, eq_iff, false, if◌then◌else◌, is_empty, lower, member, not, strip, true, ◌&&◌,
  ◌↔◌, ◌∷◌, ◌≡◌, ◌≢◌, ◌⊎◌,
}
use owlclaw.Governance.View.{CapabilityView, FilterResult, RunContext, hidden, is_confirmed, shown}
use owlclaw.Security.RiskGate.{normalize_level}

-- `evaluate`, under the option `enforce_high_risk_confirmation`
unfoldable pub evaluate_confirmation : Bool → CapabilityView → RunContext → FilterResult
evaluate_confirmation enforce_high_risk_confirmation capability context =
    let risk_level =
      lower (strip (if is_empty capability.risk_level then "low" else capability.risk_level)) in
    let requires_confirmation =
      if not capability.requires_confirmation
        && enforce_high_risk_confirmation
        && member risk_level ("high" ∷ "critical" ∷ [])
      then true
      else capability.requires_confirmation in
    if not requires_confirmation
    then shown
    else if is_confirmed context capability.name
    then shown
    else hidden "requires_confirmation"

-- An unconfirmed capability is shown exactly if it asks for no confirmation and, where high risks
-- are enforced, its level is neither high nor critical.
pub evaluate_confirmation_iff :
    (enforce : Bool) (capability : CapabilityView) (context : RunContext)
    → is_confirmed context capability.name ≡ false
    → ((evaluate_confirmation enforce capability context).visible ≡ true)
      ↔ (capability.requires_confirmation ≡ false)
        × ((enforce ≡ false)
            ⊎ (normalize_level capability.risk_level ≢ "high")
              × (normalize_level capability.risk_level ≢ "critical"))
unfolding evaluate_confirmation normalize_level member
evaluate_confirmation_iff enforce capability context h =
    let n =
      lower (strip (if is_empty capability.risk_level then "low" else capability.risk_level)) in
    (
      λ v. ground (arith, eq_iff "high" n, eq_iff "critical" n),
      λ v. ground (arith, eq_iff "high" n, eq_iff "critical" n),
    )
