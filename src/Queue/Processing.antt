-- ===== src/Queue/Processing.antt =====
-- owlclaw/triggers/queue/trigger.py: one message from the parser to the adapter's last call, as one
-- step: what `pause`, `stop` and other workers do while it waits is left out.
pub mod Frames
pub mod Settlement
pub mod Counts
pub mod Messages
pub mod Calls
pub mod Dedup
pub mod Rejection
use owlclaw.Base.{
  Bool, Option, String, [], concat, false, if◌then◌else◌, none, some, true, ℕ, ◌-◌, ◌∷◌,
}
use owlclaw.Queue.Checks.{
  check_governance, handle_governance_rejection, record_entry, remember, seen_before, success_entry,
}
use owlclaw.Queue.Decisions.{
  GovernanceDecision, dedup_key_of, error_disposition, extract_agent_run_id,
}
use owlclaw.Queue.Effects.{Setup, acked, dead_lettered}
use owlclaw.Queue.Models.{
  MessageEnvelope, Parsed, RawMessage, from_raw_message, parse_crashed, parse_failed, parsed_as,
}
use owlclaw.Queue.Redaction.{redact_text}
use owlclaw.Queue.Retry.{Delivered, delivered, failed, trigger_agent_with_retry}
use owlclaw.Queue.Runtime.{
  QueueTrigger, Reply, count_dedup_hit, count_failure, count_success, create_parser, raised,
  returned, settle_message,
}
use owlclaw.Queue.Tenant.{resolve_tenant_id}

pub data ProcessStatus : Type 0 where
  processed deduplicated governance_rejected processing_error parse_error : ProcessStatus

pub record ProcessResult : Type 0 where
  pub message_id : String
  pub status : ProcessStatus
  pub trace_id : String
  pub detail : Option String

-- What `_process_envelope` returns.
abbrev pub EnvelopeResult : Type 0
EnvelopeResult = ProcessStatus × Option String × String

-- What is left of a call that returned or raised: another value for the one it returned.
abbrev pub reply_with : {A B : Type 0} → B → Reply A → Reply B
reply_with b (returned a) = returned b
reply_with b raised = raised

abbrev pub trace_id_of : RawMessage → String
trace_id_of raw = concat ("queue-" ∷ raw.message_id ∷ [])

abbrev pub result_of : RawMessage → ProcessStatus → Option String → ProcessResult
result_of raw status detail = record {
  message_id = raw.message_id;
  status = status;
  trace_id = trace_id_of raw;
  detail = detail;
}

module _ {S : Type 0} where
  -- What follows the retry loop.
  unfoldable pub finish_delivery :
      Setup S
      → RawMessage
      → MessageEnvelope
      → String
      → String
      → Delivered × QueueTrigger S
      → Reply EnvelopeResult × QueueTrigger S
  unfolding remember error_disposition extract_agent_run_id redact_text
  finish_delivery setup raw envelope trace_id tenant_id (failed error, t) =
      let (reply, t') =
        settle_message setup raw
          (error_disposition setup.config.ack_policy (redact_text setup.externals.patterns error))
          (count_failure t) in
      (reply_with (processing_error, none, tenant_id) reply, t')
  finish_delivery setup raw envelope trace_id tenant_id (delivered answer, t) =
      let (reply, t') =
        settle_message setup raw acked (remember setup (dedup_key_of envelope) trace_id t) in
      (
        reply_with (processed, extract_agent_run_id setup.externals.text_of answer, tenant_id)
            reply,
        t',
      )

  -- What follows the question to the store.
  unfoldable pub after_lookup :
      Setup S
      → RawMessage
      → MessageEnvelope
      → String
      → String
      → Bool × QueueTrigger S
      → Reply EnvelopeResult × QueueTrigger S
  unfolding finish_delivery trigger_agent_with_retry
  after_lookup setup raw envelope trace_id tenant_id (true, t) =
      let (reply, t') = settle_message setup raw acked (count_dedup_hit t) in
      (reply_with (deduplicated, none, tenant_id) reply, t')
  after_lookup setup raw envelope trace_id tenant_id (false, t) =
      finish_delivery setup raw envelope trace_id tenant_id
        (trigger_agent_with_retry setup envelope trace_id tenant_id t)

  -- What follows the governance check.
  unfoldable pub after_check :
      Setup S
      → RawMessage
      → MessageEnvelope
      → String
      → String
      → GovernanceDecision × QueueTrigger S
      → Reply EnvelopeResult × QueueTrigger S
  unfolding after_lookup seen_before handle_governance_rejection
  after_check setup raw envelope trace_id tenant_id (decision, t) =
      let (reply, t') =
        handle_governance_rejection setup raw envelope tenant_id decision trace_id t in
      if decision.allowed
      then after_lookup setup raw envelope trace_id tenant_id
          (seen_before setup (dedup_key_of envelope) t)
      else (reply_with (governance_rejected, none, tenant_id) reply, t')

  abbrev pub with_tenant :
      Setup S
      → RawMessage
      → MessageEnvelope
      → String
      → Option String
      → QueueTrigger S
      → Reply EnvelopeResult × QueueTrigger S
  with_tenant setup raw envelope trace_id none t = (raised, t)
  with_tenant setup raw envelope trace_id (some tenant_id) t =
      after_check setup raw envelope trace_id tenant_id
        (check_governance setup envelope tenant_id t)

  -- `_process_envelope`
  unfoldable pub process_envelope :
      Setup S
      → RawMessage
      → MessageEnvelope
      → String
      → QueueTrigger S
      → Reply EnvelopeResult × QueueTrigger S
  unfolding after_check check_governance resolve_tenant_id
  process_envelope setup raw envelope trace_id t =
      with_tenant setup raw envelope trace_id
        (resolve_tenant_id setup.externals.secrets setup.config envelope) t

  -- What follows `_process_envelope`; `started` is the counter's reading before the parser ran.
  unfoldable pub finish_message :
      Setup S
      → RawMessage
      → MessageEnvelope
      → ℕ
      → Reply EnvelopeResult × QueueTrigger S
      → Reply ProcessResult × QueueTrigger S
  finish_message setup raw envelope started (raised, t) = (raised, t)
  finish_message setup raw envelope started (returned (processed, run_id, tenant_id), t) =
      let duration = setup.externals.perf_counter t.effects - started in
      (
        returned (result_of raw processed none),
        count_success duration (
            record_entry setup
              (success_entry setup envelope tenant_id (trace_id_of raw) duration run_id) t),
      )
  finish_message setup raw envelope started (returned (status, run_id, tenant_id), t) =
      (returned (result_of raw status none), t)

  abbrev pub with_parsed :
      Setup S
      → RawMessage
      → ℕ
      → Parsed MessageEnvelope
      → QueueTrigger S
      → Reply ProcessResult × QueueTrigger S
  with_parsed setup raw started (parsed_as envelope) t =
      finish_message setup raw envelope started
        (process_envelope setup raw envelope (trace_id_of raw) t)
  with_parsed setup raw started (parse_failed error) t =
      let safe_error = redact_text setup.externals.patterns error in
      let (reply, t') = settle_message setup raw (dead_lettered safe_error) (count_failure t) in
      (reply_with (result_of raw parse_error (some safe_error)) reply, t')
  with_parsed setup raw started parse_crashed t = (raised, t)

  -- `_process_message`
  unfoldable pub process_message :
      Setup S → RawMessage → QueueTrigger S → Reply ProcessResult × QueueTrigger S
  unfolding finish_message process_envelope from_raw_message redact_text create_parser
  process_message setup raw t =
      with_parsed setup raw (setup.externals.perf_counter t.effects)
        (from_raw_message setup.externals.decoders raw setup.config.queue_name
          (create_parser setup.config.parser_type))
        t

  abbrev pub count_raised : {A : Type 0} → Reply A → QueueTrigger S → QueueTrigger S
  count_raised (returned a) t = t
  count_raised raised t = count_failure t

  -- What `_consume_loop` does with one message: an exception of `_process_message` is counted.
  unfoldable pub consume_message : Setup S → RawMessage → QueueTrigger S → QueueTrigger S
  unfolding process_message
  consume_message setup raw t =
      let (reply, t') = process_message setup raw t in count_raised reply t'
