-- ===== src/Governance/Constraints/CircuitBreaker.antt =====
-- owlclaw/governance/constraints/circuit_breaker.py: `CircuitBreakerConstraint` over the ledger.
-- Times are microseconds, the two settings are natural numbers.
mod Examples
pub mod States
pub mod Failures
use owlclaw.Base.{
  Bool, List, Option, String, [], concat, if◌then◌else◌, leb, ltb, none, some, string_eq,
  string_pair_eq, suc, ℕ, ◌*◌, ◌+◌, ◌==◌, ◌||◌, ◌∷◌,
}
use owlclaw.Base.Dict.{Dict, get, put}
use owlclaw.Base.Number.{nat_to_text}
use owlclaw.Governance.Ledger.{InMemoryLedger, InMemoryRecord, LedgerQueryFilters, query_records}
use owlclaw.Governance.View.{CapabilityView, FilterResult, RunContext, hidden, shown}
use owlclaw.Security.RiskGate.{second}

pub data CircuitState : Type 0 where
  closed opened half_open : CircuitState

pub record CircuitBreaker : Type 0 where
  pub failure_threshold : ℕ
  pub recovery_timeout : ℕ
  pub states : Dict (String × String) (CircuitState × Option ℕ)

abbrev pub failed_status : String → Bool
failed_status status = status == "error" || status == "timeout"

-- The loop of `_get_recent_failures`: it stops at the first record that is no failure.
unfoldable pub leading_failures : List InMemoryRecord → ℕ
leading_failures [] = 0
leading_failures (rec ∷ rest) =
    let more = leading_failures rest in if failed_status rec.status then suc more else 0

abbrev pub failure_filters : String → String → ℕ → LedgerQueryFilters
failure_filters agent_id capability_name threshold = record {
  agent_id = some agent_id;
  capability_name = some capability_name;
  status = none;
  execution_mode = none;
  start_date = none;
  end_date = none;
  limit = some (threshold + 1);
  offset = none;
  order_by = some "created_at DESC";
}

-- `_get_recent_failures`
unfoldable pub recent_failures : CircuitBreaker → InMemoryLedger → String → String → String → ℕ
unfolding leading_failures
recent_failures breaker ledger tenant_id agent_id capability_name = leading_failures (
    query_records ledger tenant_id
      (failure_filters agent_id capability_name breaker.failure_threshold))

abbrev pub state_or_closed : Option (CircuitState × Option ℕ) → CircuitState × Option ℕ
state_or_closed none = (closed, none)
state_or_closed (some entry) = entry

abbrev pub set_state : CircuitBreaker → String × String → CircuitState → Option ℕ → CircuitBreaker
set_state breaker key state open_time = record breaker {
  states = put breaker.states key (state, open_time);
}

-- The part of `evaluate` that asks the ledger: the circuit is closed or half open.
unfoldable pub check_failures :
    CircuitBreaker → String × String → ℕ → ℕ → FilterResult × CircuitBreaker
check_failures breaker key now failures =
    if leb breaker.failure_threshold failures
    then (
      hidden (concat ("Circuit open (" ∷ nat_to_text failures ∷ " consecutive failures)" ∷ [])),
      set_state breaker key opened (some now),
    )
    else (shown, breaker)

-- `evaluate`, behind the entry of the capability and the number of recent failures
unfoldable pub evaluate_entry :
    CircuitBreaker
    → String × String
    → ℕ
    → ℕ
    → CircuitState × Option ℕ
    → FilterResult × CircuitBreaker
unfolding check_failures
evaluate_entry breaker key now failures (opened, some open_time) =
    if ltb (open_time + breaker.recovery_timeout * second) now
    then (shown, set_state breaker key half_open none)
    else (hidden "Circuit open (capability recently failed)", breaker)
evaluate_entry breaker key now failures (opened, none) =
    (hidden "Circuit open (capability recently failed)", breaker)
evaluate_entry breaker key now failures (closed, open_time) =
    check_failures breaker key now failures
evaluate_entry breaker key now failures (half_open, open_time) =
    check_failures breaker key now failures

-- `evaluate`
unfoldable pub evaluate_circuit :
    CircuitBreaker
    → InMemoryLedger
    → ℕ
    → CapabilityView
    → String
    → RunContext
    → FilterResult × CircuitBreaker
unfolding evaluate_entry
evaluate_circuit breaker ledger now capability agent_id context =
    let key : String × String = (agent_id, capability.name) in
    evaluate_entry breaker key now
      (recent_failures breaker ledger context.tenant_id agent_id capability.name)
      (state_or_closed (get breaker.states key))

abbrev pub reset_entry :
    CircuitBreaker → String × String → Option (CircuitState × Option ℕ) → CircuitBreaker
reset_entry breaker key none = breaker
reset_entry breaker key (some entry) = set_state breaker key closed none

-- `on_capability_success`
unfoldable pub on_capability_success : CircuitBreaker → String → String → CircuitBreaker
on_capability_success breaker agent_id capability_name =
    let key : String × String = (agent_id, capability_name) in
    reset_entry breaker key (get breaker.states key)
