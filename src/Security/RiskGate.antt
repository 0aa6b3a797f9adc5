-- ===== src/Security/RiskGate.antt =====
-- owlclaw/security/risk_gate.py: the policy of `RiskGate` and its queue of paused operations.
-- A time is a number of microseconds. `now` and the id that `uuid4` draws are arguments; a budget
-- ratio is given in thousandths. The audit log, where one is attached, is the list of its events.
pub mod Queue
pub mod Policy
mod Examples
use owlclaw.Base.{
  Bool, List, Option, String, [], false, if◌then◌else◌, is_empty, leb, length, lower, ltb, member,
  none, not, some, string_eq, string_pair_eq, strip, true, ℕ, ◌&&◌, ◌*◌, ◌++◌, ◌+◌, ◌==◌, ◌∷◌,
}
use owlclaw.Base.Dict.{Dict, get, put, remove}
use owlclaw.Base.Dict.Keys.{keys_if, remove_all}

pub data RiskDecision : Type 0 where
  execute pause reject : RiskDecision

pub record PendingRiskOperation : Type 0 where
  pub operation_id : String
  pub created_at : ℕ
  pub capability_name : String
  pub risk_level : String
  pub reason : String

pub data AuditEvent : Type 0 where
  risk_rejected : String → String → String → AuditEvent
  risk_executed : String → String → Bool → ℕ → AuditEvent
  risk_paused : String → String → String → String → AuditEvent
  risk_confirmed risk_confirm_missing risk_rejected_manual risk_reject_missing risk_timeout :
      String → AuditEvent

pub record RiskGate : Type 0 where
  pub timeout_seconds : ℕ
  pub pending : Dict String PendingRiskOperation
  pub audit_log : Option (List AuditEvent)

abbrev pub second : ℕ
second = 1000000

-- `__init__`: the timeout is at least one second.
unfoldable pub new_gate : ℕ → Option (List AuditEvent) → RiskGate
new_gate confirmation_timeout_seconds log = record {
  timeout_seconds = if ltb 1 confirmation_timeout_seconds then confirmation_timeout_seconds else 1;
  pending = [];
  audit_log = log;
}

-- `_audit`
unfoldable pub audit : RiskGate → AuditEvent → RiskGate
audit g event = record g {
  audit_log = elim g.audit_log [ none ↦ none | some events ↦ some (events ++ event ∷ []) ];
}

-- `_pause`
unfoldable pub pause_operation :
    RiskGate → ℕ → String → String → String → String → RiskGate × RiskDecision × Option String
unfolding audit
pause_operation g now op_id capability_name risk_level reason =
    let operation : PendingRiskOperation = record {
      operation_id = op_id;
      created_at = now;
      capability_name = capability_name;
      risk_level = risk_level;
      reason = reason;
    } in
    (
      audit (record g { pending = put g.pending op_id operation })
          (risk_paused op_id capability_name risk_level reason),
      pause,
      some op_id,
    )

-- `(risk_level or "low").strip().lower()`
unfoldable pub normalize_level : String → String
normalize_level risk_level = lower (strip (if is_empty risk_level then "low" else risk_level))

unfoldable pub supported_levels : List String
supported_levels = "low" ∷ "medium" ∷ "high" ∷ "critical" ∷ []

-- `evaluate`
unfoldable pub evaluate :
    RiskGate → ℕ → String → String → String → Bool → ℕ → RiskGate × RiskDecision × Option String
evaluate g now op_id capability_name risk_level requires_confirmation budget_ratio =
    let normalized = normalize_level risk_level in
    if normalized == "critical"
    then pause_operation g now op_id capability_name normalized "critical capability"
    else if requires_confirmation
    then pause_operation g now op_id capability_name normalized "manual confirmation required"
    else if normalized == "high" && leb 800 budget_ratio
    then pause_operation g now op_id capability_name normalized "budget ratio exceeds threshold"
    else if not (member normalized supported_levels)
    then (audit g (risk_rejected capability_name normalized "unsupported_risk_level"), reject, none)
    else (
      audit g (risk_executed capability_name normalized requires_confirmation budget_ratio),
      execute,
      none,
    )

-- The test of `_expire_pending`: created before `now - timeout`.
unfoldable pub is_overdue : ℕ → ℕ → PendingRiskOperation → Bool
is_overdue timeout now operation = ltb (operation.created_at + timeout * second) now

unfoldable pub audit_timeouts : RiskGate → List String → RiskGate
unfolding audit
audit_timeouts g [] = g
audit_timeouts g (op_id ∷ ids) = audit_timeouts (audit g (risk_timeout op_id)) ids

-- `_expire_pending`
unfoldable pub expire_pending : RiskGate → ℕ → RiskGate × ℕ
unfolding audit_timeouts
expire_pending g now =
    let expired = keys_if (is_overdue g.timeout_seconds now) g.pending in
    (audit_timeouts (record g { pending = remove_all g.pending expired }) expired, length expired)

abbrev pub is_some {ℓ} : {A : Type ℓ} → Option A → Bool
is_some none = false
is_some (some a) = true

-- The common part of `confirm` and `reject`: expire, then pop.
unfoldable pub take_operation :
    (String → AuditEvent) → (String → AuditEvent) → RiskGate → ℕ → String → RiskGate × Bool
unfolding audit
take_operation found missing g now op_id =
    let g' = (expire_pending g now).0 in
    let success = is_some (get g'.pending op_id) in
    (
      audit (record g' { pending = remove g'.pending op_id })
          (if success then found op_id else missing op_id),
      success,
    )

unfoldable pub confirm : RiskGate → ℕ → String → RiskGate × Bool
unfolding take_operation
confirm = take_operation risk_confirmed risk_confirm_missing

unfoldable pub reject_operation : RiskGate → ℕ → String → RiskGate × Bool
unfolding take_operation
reject_operation = take_operation risk_rejected_manual risk_reject_missing

unfoldable pub pending_count : RiskGate → ℕ → RiskGate × ℕ
pending_count g now = let g' = (expire_pending g now).0 in (g', length g'.pending)
