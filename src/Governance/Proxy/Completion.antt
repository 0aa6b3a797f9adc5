-- ===== src/Governance/Proxy/Completion.antt =====
-- owlclaw/governance/proxy.py: `acompletion`, from the gate to the ledger. Reading a count of tokens
-- (`Decimal(str(…))`), the model and the ids of the records are arguments. A record of the ledger holds
-- an integer amount: the cost that is written there is 0 where it is NaN.
use owlclaw.Base.{Option, String, if◌then◌else◌, is_empty, none, some, ℕ}
use owlclaw.Base.Int.{pos, ℤ}
use owlclaw.Base.Value.{Fields, Value, dict, end, field, get_field, null, str}
use owlclaw.Governance.Ledger.{Execution, InMemoryLedger, record_execution}
use owlclaw.Governance.Proxy.{
  Dollars, GovernanceProxy, Reading, Verdict, add_dollars, consume_budget, gate, gate_error,
  nan_usd, on_failure, on_success, rejection, usd,
}

-- What the model gives: a dict, an object that dumps to one, or anything else, as its `str`.
pub data RawResponse : Type 0 where
  dict_response dumped_response : Fields → RawResponse
  other_response : String → RawResponse

-- The name of the exception's class, for a call that raises an `Exception`; a call that is cancelled.
pub data LlmOutcome : Type 0 where
  llm_returned : RawResponse → LlmOutcome
  llm_raised : String → LlmOutcome
  llm_cancelled : LlmOutcome

-- What the caller gets: the response, a `GovernanceRejectedError`, a `RuntimeError`, the ledger's
-- ValueError, the exception of a call that was passed through, or the cancellation.
pub data Completion : Type 0 where
  completed : Fields → Completion
  rejected_for : String → Completion
  call_failed ledger_failed cancelled : Completion
  model_raised : String → Completion

-- `_normalize_response`
unfoldable pub normalize_response : RawResponse → Fields
normalize_response (dict_response fields) = fields
normalize_response (dumped_response fields) = fields
normalize_response (other_response text) = field "raw_response" (str text) end

abbrev pub twice : Option Dollars → Dollars
twice none = usd (pos 0)
twice (some tokens) = add_dollars tokens tokens

abbrev pub number_or_zero : Dollars → ℤ
number_or_zero (usd z) = z
number_or_zero nan_usd = pos 0

abbrev pub cost_of_usage : (Value → Option Dollars) → Value → Dollars
cost_of_usage tokens_of (dict usage) = twice (tokens_of (get_field usage "total_tokens"))
cost_of_usage tokens_of _ = usd (pos 0)

-- `_estimate_cost`: two millionths of a dollar for each token
unfoldable pub estimate_cost : (Value → Option Dollars) → Fields → Dollars
estimate_cost tokens_of response = cost_of_usage tokens_of (get_field response "usage")

-- What one call is given: the readings of the clocks at the gate and behind the call, the id of its
-- record, and what the model does.
pub record Call : Type 0 where
  pub caller : String
  pub model : String
  pub reading : Reading
  pub today : ℕ
  pub month : ℕ
  pub failed_at : ℕ
  pub elapsed_ms : ℕ
  pub recorded_at : ℕ
  pub record_id : String
  pub run_id : String
  pub outcome : LlmOutcome

abbrev or_nothing : String → Option String
or_nothing reason = if is_empty reason then none else some reason

-- The arguments that `_record_event` calls the ledger with.
abbrev pub event_of : GovernanceProxy → Call → String → String → Value → Dollars → Execution
event_of p call status reason output cost = record {
  tenant_id = str p.tenant_id;
  agent_id = str p.agent_id;
  run_id = str call.run_id;
  capability_name = str call.caller;
  task_type = str "llm_proxy";
  input_params = dict (field "caller" (str call.caller) end);
  rest = record {
    id = call.record_id;
    tenant_id = "";
    agent_id = "";
    run_id = "";
    capability_name = "";
    task_type = "";
    input_params = null;
    output_result = output;
    decision_reasoning = or_nothing reason;
    execution_time_ms = call.elapsed_ms;
    llm_model = call.model;
    llm_tokens_input = 0;
    llm_tokens_output = 0;
    estimated_cost = number_or_zero cost;
    status = status;
    error_message = or_nothing reason;
    migration_weight = none;
    execution_mode = none;
    risk_level = none;
    approval_by = none;
    approval_time = none;
    created_at = call.recorded_at;
  };
}

-- `_record_event`, and what the call does behind it; `none` is the ledger's ValueError.
abbrev pub with_ledger :
    GovernanceProxy
    → Option InMemoryLedger
    → Completion
    → (GovernanceProxy → Completion × GovernanceProxy)
    → Completion × GovernanceProxy
with_ledger p none completion otherwise = otherwise p
with_ledger p (some ledger) completion otherwise = (completion, record p { ledger = ledger })

abbrev pub record_event :
    GovernanceProxy
    → Call
    → String
    → String
    → Value
    → Dollars
    → Completion
    → (GovernanceProxy → Completion × GovernanceProxy)
    → Completion × GovernanceProxy
record_event p call status reason output cost completion otherwise =
    with_ledger p (record_execution p.ledger (event_of p call status reason output cost)) completion
      otherwise

abbrev pub ledger_error : GovernanceProxy → Completion × GovernanceProxy
ledger_error p = (ledger_failed, p)

-- The handler of an exception behind the gate.
unfoldable pub fail_call : GovernanceProxy → Call → String → Completion × GovernanceProxy
unfolding on_failure record_execution
fail_call p call reason =
    record_event (on_failure p call.caller call.failed_at) call "failure" reason null (usd (pos 0))
      call_failed ledger_error

-- What follows the gate.
unfoldable pub finish_call :
    (Value → Option Dollars) → GovernanceProxy → Call → LlmOutcome → Completion × GovernanceProxy
unfolding fail_call normalize_response estimate_cost consume_budget on_success
finish_call tokens_of p call llm_cancelled = (cancelled, p)
finish_call tokens_of p call (llm_raised reason) = fail_call p call reason
finish_call tokens_of p call (llm_returned raw) =
    let response = normalize_response raw in
    let cost = estimate_cost tokens_of response in
    let p' = on_success (consume_budget p call.caller call.today call.month cost) call.caller in
    record_event p' call "success" "" (dict response) cost (completed response)
      (λ p''. fail_call p'' call "ValueError")

-- `_passthrough_call`
unfoldable pub passthrough_call : LlmOutcome → Completion
unfolding normalize_response
passthrough_call (llm_returned raw) = completed (normalize_response raw)
passthrough_call (llm_raised reason) = model_raised reason
passthrough_call llm_cancelled = cancelled

abbrev pub behind_gate : (Value → Option Dollars) → Call → Verdict → Completion × GovernanceProxy
behind_gate tokens_of call (some (rejection reason), p) =
    record_event p call "blocked" reason null (usd (pos 0)) (rejected_for reason) ledger_error
behind_gate tokens_of call (some gate_error, p) =
    (if p.passthrough_on_error then passthrough_call call.outcome else call_failed, p)
behind_gate tokens_of call (none, p) = finish_call tokens_of p call call.outcome

-- `acompletion`
unfoldable pub acompletion :
    (Value → Option Dollars) → GovernanceProxy → Call → Completion × GovernanceProxy
unfolding finish_call gate passthrough_call
acompletion tokens_of p call = behind_gate tokens_of call (gate p call.caller call.reading)
