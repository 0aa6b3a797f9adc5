-- ===== src/Signal/Router.antt =====
-- owlclaw/triggers/signal/router.py: `SignalRouter`. The authorizer is an argument. A
-- ledger that fails is suppressed by the code and is the same as none.
pub mod Laws
use owlclaw.Base.{
  Bool, List, Option, String, [], concat, if◌then◌else◌, is_empty, none, not, some, string_eq,
  string_pair_eq, true, ℕ, ◌++◌, ◌==◌, ◌∷◌,
}
use owlclaw.Signal.Handlers.{Handled, Handler, raised_error, replied}
use owlclaw.Signal.Models.{
  Signal, SignalResult, SignalSource, SignalType, instruct_signal, pause_signal, resume_signal,
  trigger_signal,
}
use owlclaw.Signal.State.{AgentStateManager}

pub record RouterEntry : Type 0 where
  pub tenant_id : String
  pub agent_id : String
  pub run_id : String
  pub capability_name : String
  pub source : SignalSource
  pub operator : String
  pub message : String
  pub focus : Option String
  pub result : SignalResult
  pub status : String
  pub error_message : Option String

pub record SignalRouter : Type 0 where
  pub handlers : SignalType → Option Handler
  pub authorizer : Option (Signal → Bool × Option String)
  pub ledger : Option (List RouterEntry)

-- `_authorize`
unfoldable pub authorize : SignalRouter → Signal → Bool × Option String
authorize router signal = elim router.authorizer [ none ↦ (true, none) | some ask ↦ ask signal ]

-- `signal.type.value`
abbrev pub type_value : SignalType → String
type_value pause_signal = "pause"
type_value resume_signal = "resume"
type_value trigger_signal = "trigger"
type_value instruct_signal = "instruct"

-- The arguments that `_record` gives to `record_execution`; those that are always the same are left
-- out.
abbrev pub entry_of : Signal → SignalResult → String → RouterEntry
entry_of signal result status = record {
  tenant_id = signal.tenant_id;
  agent_id = signal.agent_id;
  run_id = concat ("signal-" ∷ signal.id ∷ []);
  capability_name = concat ("signal." ∷ type_value signal.type ∷ []);
  source = signal.source;
  operator = signal.operator;
  message = signal.message;
  focus = signal.focus;
  result = result;
  status = status;
  error_message = if status == "failed" then result.message else none;
}

-- `_record`
unfoldable pub record_entry : SignalRouter → Signal → SignalResult → String → SignalRouter
record_entry router signal result status = record router {
  ledger = elim router.ledger [
    | none ↦ none
    | some entries ↦ some (entries ++ entry_of signal result status ∷ [])
  ];
}

abbrev pub error_result : String → String → SignalResult
error_result error_code message = record {
  status = "error";
  message = some message;
  run_id = none;
  error_code = some error_code;
}

-- `reason or "unauthorized"`
abbrev pub reason_or_default : Option String → String
reason_or_default none = "unauthorized"
reason_or_default (some reason) = if is_empty reason then "unauthorized" else reason

-- The end of `dispatch`, behind the handler.
unfoldable pub finish : SignalRouter → Signal → Handled → SignalResult × SignalRouter
finish router signal (replied result) = (result, record_entry router signal result "success")
finish router signal raised_error =
    let result = error_result "bad_request" "Operation failed." in
    (result, record_entry router signal result "failed")

unfoldable pub run_handler :
    SignalRouter
    → ℕ
    → Signal
    → AgentStateManager
    → Option Handler
    → SignalResult × SignalRouter × AgentStateManager
unfolding finish
run_handler router now signal m none =
    let result = error_result "bad_request" "unsupported_signal" in
    (result, record_entry router signal result "failed", m)
run_handler router now signal m (some handler) =
    let (handled, m') = handler now signal m in
    let (result, router') = finish router signal handled in (result, router', m')

-- `dispatch`
unfoldable pub dispatch :
    SignalRouter → ℕ → Signal → AgentStateManager → SignalResult × SignalRouter × AgentStateManager
unfolding run_handler
dispatch router now signal m =
    let (allowed, reason) = authorize router signal in
    let refusal = error_result "unauthorized" (reason_or_default reason) in
    if not allowed
    then (refusal, record_entry router signal refusal "blocked", m)
    else run_handler router now signal m (router.handlers signal.type)
