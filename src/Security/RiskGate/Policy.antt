-- ===== src/Security/RiskGate/Policy.antt =====
-- What the policy decides: which operations run, which wait and which are refused.
use owlclaw.Base.{
  Bool, String, arith, eq_iff, false, if_second, if◌then◌else◌, inl, inr, leb, member, not, refl,
  string_eq, string_pair_eq, ℕ, ◌&&◌, ◌<◌, ◌==◌, ◌↔◌, ◌≡◌, ◌⊎◌,
}
use owlclaw.Security.RiskGate.{
  RiskDecision, RiskGate, evaluate, execute, normalize_level, pause, pause_operation, reject,
  supported_levels,
}

abbrev decision_of : Bool → Bool → Bool → Bool → RiskDecision
decision_of critical required costly known =
    if critical
    then pause
    else if required
    then pause
    else if costly
    then pause
    else if not known
    then reject
    else execute

-- The decision of `evaluate` at a normalised level `n`.
abbrev decide_level : String → Bool → ℕ → RiskDecision
decide_level n required ratio =
    decision_of (n == "critical") required (n == "high" && leb 800 ratio)
      (member n supported_levels)

evaluate-decide_level :
    (g : RiskGate) (now : ℕ) (op_id name level : String) (required : Bool) (ratio : ℕ)
    → (evaluate g now op_id name level required ratio).1
      ≡ decide_level (normalize_level level) required ratio
unfolding evaluate pause_operation
evaluate-decide_level g now op_id name level required ratio = simp if_second (ground arith)

abbrev pub RunsAtOnce : String → Bool → ℕ → Type 0
RunsAtOnce n required ratio =
    (required ≡ false) × ((n ≡ "low") ⊎ (n ≡ "medium") ⊎ (n ≡ "high") × (ratio < 800))

decide_level-execute :
    (n : String) (required : Bool) (ratio : ℕ)
    → decide_level n required ratio ≡ execute
    → RunsAtOnce n required ratio
unfolding member supported_levels
decide_level-execute n required ratio h = ground (
  arith,
  eq_iff n "high",
  eq_iff "high" n,
  eq_iff "medium" n,
  eq_iff "low" n,
  eq_iff "critical" n,
  eq_iff n "critical",
)

RunsAtOnce-decide_level :
    (n : String) (required : Bool) (ratio : ℕ)
    → RunsAtOnce n required ratio
    → decide_level n required ratio ≡ execute
unfolding member supported_levels
RunsAtOnce-decide_level n required ratio (free, inl e) = rw (e, free) refl
RunsAtOnce-decide_level n required ratio (free, inr (inl e)) = rw (e, free) refl
RunsAtOnce-decide_level n required ratio (free, inr (inr (e, h))) = rw (e, free) (ground arith)

-- A capability runs at once exactly if its level, trimmed and in lower case, is low, medium or
-- high, no confirmation is asked for, and it is not a high one at 80% of the budget or more.
pub evaluate-execute_iff :
    (g : RiskGate) (now : ℕ) (op_id name level : String) (required : Bool) (ratio : ℕ)
    → ((evaluate g now op_id name level required ratio).1 ≡ execute)
      ↔ RunsAtOnce (normalize_level level) required ratio
evaluate-execute_iff g now op_id name level required ratio =
    rw evaluate-decide_level
      (decide_level-execute _ required ratio, RunsAtOnce-decide_level _ required ratio)
