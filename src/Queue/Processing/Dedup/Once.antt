-- ===== src/Queue/Processing/Dedup/Once.antt =====
-- owlclaw/triggers/queue/trigger.py: a key that is held, behind messages and events.
use owlclaw.Base.{List, Option, String, none, some, ℕ, ◌-◌}
use owlclaw.Queue.Checks.{check_governance, context_of, success_entry}
use owlclaw.Queue.Effects.{Setup, dead_lettered}
use owlclaw.Queue.Idempotency.{Entries}
use owlclaw.Queue.Models.{
  MessageEnvelope, Parsed, RawMessage, parse_crashed, parse_failed, parsed_as,
}
use owlclaw.Queue.Processing.{
  EnvelopeResult, ProcessResult, consume_message, count_raised, deduplicated, finish_message,
  governance_rejected, parse_error, process_envelope, process_message, processed, processing_error,
  trace_id_of, with_parsed, with_tenant,
}
use owlclaw.Queue.Processing.Dedup.{Holds, IsRemembering, log-Holds}
use owlclaw.Queue.Processing.Dedup.Kept.{
  after_check-Holds, ask_permission-Holds, record_entry-Holds, settle-Holds,
}
use owlclaw.Queue.Processing.Messages.{parse_of}
use owlclaw.Queue.Redaction.{redact_text}
use owlclaw.Queue.Runtime.{QueueTrigger, Reply, count_failure, raised, returned}
use owlclaw.Queue.Tenant.{resolve_tenant_id}
use owlclaw.Queue.Worker.{Event, Worker, run_events}
use owlclaw.Queue.Worker.Safety.{run_events-keeps}

module _ (setup : Setup Entries) (r : IsRemembering setup) where
  pub check_governance-Holds :
      (k : Option String) (deadline : ℕ) (envelope : MessageEnvelope) (tenant_id : String)
      (t : QueueTrigger Entries)
      → Holds setup k deadline t
      → Holds setup k deadline (check_governance setup envelope tenant_id t).1
  unfolding check_governance
  check_governance-Holds k deadline envelope tenant_id t h =
      ask_permission-Holds setup r k deadline (context_of setup envelope tenant_id)
        setup.externals.check_permission t h

  pub finish_message-Holds :
      (k : Option String) (deadline : ℕ) (raw : RawMessage) (envelope : MessageEnvelope)
      (started : ℕ) (reply : Reply EnvelopeResult) (t : QueueTrigger Entries)
      → Holds setup k deadline t
      → Holds setup k deadline (finish_message setup raw envelope started (reply, t)).1
  unfolding finish_message
  finish_message-Holds k deadline raw envelope started raised t h = h
  finish_message-Holds k deadline raw envelope started (returned (processed, run_id, tenant_id)) t
        h =
      let duration = setup.externals.perf_counter t.effects - started in
      record_entry-Holds setup r k deadline
        (success_entry setup envelope tenant_id (trace_id_of raw) duration run_id) t h
  finish_message-Holds k deadline raw envelope started (returned (deduplicated, x, y)) t h = h
  finish_message-Holds k deadline raw envelope started (returned (governance_rejected, x, y)) t h =
      h
  finish_message-Holds k deadline raw envelope started (returned (processing_error, x, y)) t h = h
  finish_message-Holds k deadline raw envelope started (returned (parse_error, x, y)) t h = h

  process_envelope-Holds :
      (k : Option String) (deadline : ℕ) (raw : RawMessage) (envelope : MessageEnvelope)
      (t : QueueTrigger Entries)
      → Holds setup k deadline t
      → Holds setup k deadline (process_envelope setup raw envelope (trace_id_of raw) t).1
  unfolding process_envelope
  process_envelope-Holds k deadline raw envelope t h =
      go (resolve_tenant_id setup.externals.secrets setup.config envelope)
    where
      go :
          (o : Option String)
          → Holds setup k deadline (with_tenant setup raw envelope (trace_id_of raw) o t).1
      go none = h
      go (some tenant_id) =
          let checked = check_governance setup envelope tenant_id t in
          after_check-Holds setup r k deadline raw envelope (trace_id_of raw) tenant_id checked.0
            checked.1 (check_governance-Holds k deadline envelope tenant_id t h)

  with_parsed-Holds :
      (k : Option String) (deadline : ℕ) (raw : RawMessage) (started : ℕ)
      (parsed : Parsed MessageEnvelope) (t : QueueTrigger Entries)
      → Holds setup k deadline t
      → Holds setup k deadline (with_parsed setup raw started parsed t).1
  with_parsed-Holds k deadline raw started (parsed_as envelope) t h =
      let run = process_envelope setup raw envelope (trace_id_of raw) t in
      finish_message-Holds k deadline raw envelope started run.0 run.1
        (process_envelope-Holds k deadline raw envelope t h)
  with_parsed-Holds k deadline raw started (parse_failed error) t h =
      settle-Holds setup r k deadline raw
        (dead_lettered (redact_text setup.externals.patterns error)) (count_failure t) h
  with_parsed-Holds k deadline raw started parse_crashed t h = h

  count_raised-Holds :
      (k : Option String) (deadline : ℕ) (reply : Reply ProcessResult) (t : QueueTrigger Entries)
      → Holds setup k deadline t
      → Holds setup k deadline (count_raised reply t)
  count_raised-Holds k deadline (returned x) t h = h
  count_raised-Holds k deadline raised t h = h

  consume_message-Holds :
      (k : Option String) (deadline : ℕ) (raw : RawMessage) (t : QueueTrigger Entries)
      → Holds setup k deadline t
      → Holds setup k deadline (consume_message setup raw t)
  unfolding consume_message process_message
  consume_message-Holds k deadline raw t h =
      let run = process_message setup raw t in
      count_raised-Holds k deadline run.0 run.1 (
        with_parsed-Holds k deadline raw (setup.externals.perf_counter t.effects)
          (parse_of setup raw) t h)

  pub run_events-Holds :
      (k : Option String) (deadline : ℕ) (events : List Event) (w : Worker Entries)
      → Holds setup k deadline w.trigger
      → Holds setup k deadline (run_events setup events w).trigger
  run_events-Holds k deadline events w h =
      run_events-keeps setup (λ t. Holds setup k deadline t)
        (λ t effect running paused workers which h. (h, log-Holds setup r k deadline effect t h))
        (λ t h. h) (λ raw t h. consume_message-Holds k deadline raw t h) events w h
