-- ===== src/Security/RiskGate/Examples.antt =====
-- Runs of the gate of owlclaw/security/risk_gate.py.
use owlclaw.Base.{
  List, Option, String, [], false, inl, leb, lower, member, none, refl, strip, ◌*◌, ◌+◌, ◌↔◌, ◌∷◌,
  ◌≡◌,
}
use owlclaw.Security.RiskGate.{
  RiskDecision, RiskGate, audit, confirm, evaluate, execute, normalize_level, pause,
  pause_operation, reject, reject_operation, second, supported_levels,
}
use owlclaw.Security.RiskGate.Policy.{RunsAtOnce, evaluate-execute_iff}
use owlclaw.Security.RiskGate.Queue.{
  GateCall, confirm-evaluate, confirms, counts, decided_once, evaluate-IsWellFormed, evaluates,
  perform, perform_all, rejects,
}

abbrev gate : RiskGate
gate = record { timeout_seconds = 60; pending = []; audit_log = none }

abbrev deploy_decision : RiskGate × RiskDecision × Option String
deploy_decision = evaluate gate 0 "op1" "deploy" " Critical " false 0

deploy_pauses : (evaluate gate 0 "op1" "deploy" " Critical " false 0).1 ≡ pause
unfolding evaluate pause_operation normalize_level audit lower strip
deploy_pauses = refl

unknown_level_rejected : (evaluate gate 0 "op1" "deploy" "extreme" false 0).1 ≡ reject
unfolding evaluate normalize_level member supported_levels lower strip
unknown_level_rejected = refl

evaluate-execute_iff_example :
    ((evaluate gate 0 "op1" "report" "High" false 799).1 ≡ execute)
    ↔ RunsAtOnce (normalize_level "High") false 799
evaluate-execute_iff_example = evaluate-execute_iff gate 0 "op1" "report" "High" false 799

confirm-evaluate_example :
    (confirm (evaluate gate 0 "op1" "deploy" " Critical " false 0).0 60000001 "op1").1
    ≡ leb 60000001 (0 + gate.timeout_seconds * second)
confirm-evaluate_example =
    confirm-evaluate gate 0 "op1" "deploy" " Critical " false 0 60000001 tt deploy_pauses

abbrev between : List GateCall
between = evaluates 5 "op2" "deploy" "critical" false 0 ∷ rejects 5 "op2" ∷ counts 6 ∷ []

decided_once_example :
    let g = (evaluate gate 0 "op1" "deploy" " Critical " false 0).0 in
    let g' = perform_all (perform g (confirms 5 "op1")) between in
    ((confirm g' 7 "op1").1 ≡ false) × ((reject_operation g' 7 "op1").1 ≡ false)
decided_once_example =
    decided_once (evaluate gate 0 "op1" "deploy" " Critical " false 0).0 (confirms 5 "op1") between
      5 7 "op1" (inl refl) (evaluate-IsWellFormed gate 0 "op1" "deploy" " Critical " false 0 tt)
      (refl, (tt, (tt, tt)))
