-- ===== src/Governance/Constraints/CircuitBreaker/Examples.antt =====
-- Runs of owlclaw/governance/constraints/circuit_breaker.py: two failures trip the circuit.
use owlclaw.Base.{
  All, [], false, length, none, refl, string_eq, string_pair_eq, take, ℕ, ◌↔◌, ◌∷◌, ◌≡◌, ◌≢◌, ◌≤◌,
}
use owlclaw.Base.Dict.{get}
use owlclaw.Base.Int.{pos}
use owlclaw.Base.Sort.{sort_by}
use owlclaw.Base.Value.{dict, end, null}
use owlclaw.Governance.Constraints.CircuitBreaker.{
  CircuitBreaker, check_failures, evaluate_circuit, evaluate_entry, leading_failures, opened,
  recent_failures, state_or_closed,
}
use owlclaw.Governance.Constraints.CircuitBreaker.Failures.{
  Failed, evaluate_circuit_hides_iff, newest_records,
}
use owlclaw.Governance.Constraints.CircuitBreaker.States.{IsSound}
use owlclaw.Governance.Ledger.{
  InMemoryLedger, InMemoryRecord, keep_equal, keep_from, keep_mode, keep_until, order_results,
  query_records, select_records,
}
use owlclaw.Governance.View.{CapabilityView, RunContext}

abbrev failure : ℕ → InMemoryRecord
failure created_at = record {
  id = "id";
  tenant_id = "acme";
  agent_id = "trader";
  run_id = "run";
  capability_name = "buy";
  task_type = "task";
  input_params = dict end;
  output_result = null;
  decision_reasoning = none;
  execution_time_ms = 1;
  llm_model = "m";
  llm_tokens_input = 0;
  llm_tokens_output = 0;
  estimated_cost = pos 0;
  status = "error";
  error_message = none;
  migration_weight = none;
  execution_mode = none;
  risk_level = none;
  approval_by = none;
  approval_time = none;
  created_at = created_at;
}

abbrev failures : InMemoryLedger
failures = record { records = failure 1 ∷ failure 2 ∷ []; max_records = 10 }

abbrev no_records : InMemoryLedger
no_records = record { records = []; max_records = 10 }

abbrev breaker : CircuitBreaker
breaker = record { failure_threshold = 2; recovery_timeout = 300; states = [] }

abbrev buy : CapabilityView
buy = record {
  name = "buy";
  description = "";
  task_type = "trade";
  constraints = end;
  focus = [];
  risk_level = "low";
  requires_confirmation = false;
}

abbrev acme : RunContext
acme = record { tenant_id = "acme"; confirmed_capabilities = none }

starts_closed : (state_or_closed (get breaker.states ("trader", "buy"))).0 ≢ opened
unfolding get
starts_closed = λ e. cc

trips : (evaluate_circuit breaker failures 5 buy "trader" acme).0.visible ≡ false
unfolding evaluate_circuit get check_failures recent_failures leading_failures query_records
    select_records keep_equal keep_mode keep_from keep_until sort_by evaluate_entry order_results
trips = refl

evaluate_circuit_hides_iff_example :
    let newest = newest_records failures "acme" "trader" "buy" in
    ((evaluate_circuit breaker failures 5 buy "trader" acme).0.visible ≡ false)
    ↔ (2 ≤ length newest) × All Failed (take 2 newest)
evaluate_circuit_hides_iff_example =
    evaluate_circuit_hides_iff breaker failures 5 buy "trader" acme starts_closed

breaker-IsSound : IsSound breaker
unfolding get
breaker-IsSound key = tt
