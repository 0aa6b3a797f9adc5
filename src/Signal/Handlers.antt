-- ===== src/Signal/Handlers.antt =====
-- owlclaw/triggers/signal/handlers.py. The agent runtime, the governance check and the callbacks
-- are arguments; a callback is a test that tells whether it returns or raises.
pub mod Pausing
use owlclaw.Base.{Bool, Option, String, false, if◌then◌else◌, none, not, some, true, ℕ}
use owlclaw.Base.Int.{ltb_ℤ, pos, pos_part}
use owlclaw.Signal.Models.{
  Signal, SignalResult, SignalType, create_instruction, instruct_signal, pause_signal,
  resume_signal, trigger_signal,
}
use owlclaw.Signal.State.{AgentStateManager, add_instruction, get_state, set_paused}

pub data Handled : Type 0 where
  replied : SignalResult → Handled
  raised_error : Handled

abbrev pub Handler : Type 0
Handler = ℕ → Signal → AgentStateManager → Handled × AgentStateManager

abbrev pub status_only : String → SignalResult
status_only status = record { status = status; message = none; run_id = none; error_code = none }

-- What is left of a handler behind its callback.
abbrev pub after_callback : Option (Signal → Bool) → Signal → String → Handled
after_callback none signal status = replied (status_only status)
after_callback (some callback) signal status =
    if callback signal then replied (status_only status) else raised_error

-- `PauseHandler.handle`
unfoldable pub handle_pause : Option (Signal → Bool) → Handler
handle_pause on_pause now signal m =
    let (m', current) = get_state m signal.agent_id signal.tenant_id in
    if current.paused then (replied (status_only "already_paused"), m') else (
      after_callback on_pause signal "paused",
      set_paused m' signal.agent_id signal.tenant_id true,
    )

-- `ResumeHandler.handle`
unfoldable pub handle_resume : Option (Signal → Bool) → Handler
handle_resume on_resume now signal m =
    let (m', current) = get_state m signal.agent_id signal.tenant_id in
    if not current.paused then (replied (status_only "already_running"), m') else (
      after_callback on_resume signal "resumed",
      set_paused m' signal.agent_id signal.tenant_id false,
    )

-- What `trigger_event` of the runtime does: it raises, or returns with a run id or without one.
pub data Triggered : Type 0 where
  run_started : Option String → Triggered
  run_failed : Triggered

abbrev trigger_reply : Triggered → Handled
trigger_reply (run_started run_id) = replied (record (status_only "triggered") { run_id = run_id })
trigger_reply run_failed = raised_error

abbrev pub allows : Option (String → String → Bool) → String → Bool
allows none tenant_id = true
allows (some allow_trigger) tenant_id = allow_trigger "signal_manual" tenant_id

-- `TriggerHandler.handle`
unfoldable pub handle_trigger : (Signal → Triggered) → Option (String → String → Bool) → Handler
handle_trigger trigger_event governance now signal m =
    if not (allows governance signal.tenant_id)
    then (
      replied (record {
        status = "error";
        message = some "governance_blocked";
        run_id = none;
        error_code = some "rate_limited";
      }),
      m,
    )
    else (trigger_reply (trigger_event signal), m)

abbrev instruct_reply : AgentStateManager → Option AgentStateManager → Handled × AgentStateManager
instruct_reply m none = (raised_error, m)
instruct_reply m (some m') = (replied (status_only "instruction_queued"), m')

-- `InstructHandler.handle`
unfoldable pub handle_instruct : ℕ → Handler
handle_instruct default_ttl_seconds now signal m =
    let ttl_seconds =
      if ltb_ℤ (pos 0) signal.ttl_seconds
      then pos_part signal.ttl_seconds
      else default_ttl_seconds in
    let instruction =
      create_instruction now signal.message signal.operator signal.source ttl_seconds in
    instruct_reply m (add_instruction m signal.agent_id signal.tenant_id instruction)

-- What the handlers are made of.
pub record HandlerSetup : Type 0 where
  pub trigger_event : Signal → Triggered
  pub governance : Option (String → String → Bool)
  pub on_pause : Option (Signal → Bool)
  pub on_resume : Option (Signal → Bool)
  pub default_ttl_seconds : ℕ

-- `default_handlers`
unfoldable pub default_handlers : HandlerSetup → SignalType → Option Handler
default_handlers setup pause_signal = some (handle_pause setup.on_pause)
default_handlers setup resume_signal = some (handle_resume setup.on_resume)
default_handlers setup trigger_signal = some (handle_trigger setup.trigger_event setup.governance)
default_handlers setup instruct_signal = some (handle_instruct setup.default_ttl_seconds)
