-- ===== src/Queue/Processing/Dedup/Window.antt =====
-- owlclaw/triggers/queue/trigger.py: what a processed message leaves in the store.
use owlclaw.Base.{
  Bool, Bool-cases, Option, String, false, if◌then◌else◌, inl, inr, none, some, true, ℕ, ◌≡◌,
}
use owlclaw.Queue.Checks.{check_governance, handle_governance_rejection, remember, seen_before}
use owlclaw.Queue.Decisions.{
  GovernanceDecision, dedup_key_of, error_disposition, extract_agent_run_id,
}
use owlclaw.Queue.Effects.{Setup, acked, settled}
use owlclaw.Queue.Idempotency.{Entries}
use owlclaw.Queue.Models.{MessageEnvelope, RawMessage, parsed_as}
use owlclaw.Queue.Processing.{
  EnvelopeResult, ProcessStatus, after_check, after_lookup, deduplicated, finish_delivery,
  finish_message, governance_rejected, parse_error, process_envelope, process_message, processed,
  processing_error, reply_with, trace_id_of, with_tenant,
}
use owlclaw.Queue.Processing.Dedup.{Holds, IsRemembering, remember-Holds_key, seen_before-Holds}
use owlclaw.Queue.Processing.Dedup.Kept.{settle-Holds, with_runtime-Holds}
use owlclaw.Queue.Processing.Dedup.Once.{check_governance-Holds, finish_message-Holds}
use owlclaw.Queue.Processing.Messages.{parse_of}
use owlclaw.Queue.Processing.Settlement.{envelope_status, result_status}
use owlclaw.Queue.Redaction.{redact_text}
use owlclaw.Queue.Retry.{Delivered, delivered, failed, request_of, trigger_agent_with_retry}
use owlclaw.Queue.Runtime.{
  QueueTrigger, Reply, count_dedup_hit, count_failure, log, raised, returned,
}
use owlclaw.Queue.Tenant.{resolve_tenant_id}

abbrev pub OnProcessed : ProcessStatus → Type 0 → Type 0
OnProcessed processed P = P
OnProcessed deduplicated P = Unit
OnProcessed governance_rejected P = Unit
OnProcessed processing_error P = Unit
OnProcessed parse_error P = Unit

-- What holds where a message was processed.
abbrev pub IfProcessed : {A : Type 0} → (A → ProcessStatus) → Reply A → Type 0 → Type 0
IfProcessed status_of (returned a) P = OnProcessed (status_of a) P
IfProcessed status_of raised P = Unit

on_processed : (status : ProcessStatus) (P : Type 0) → P → OnProcessed status P
on_processed processed P p = p
on_processed deduplicated P p = tt
on_processed governance_rejected P p = tt
on_processed processing_error P p = tt
on_processed parse_error P p = tt

-- A reply behind the adapter's call.
if_processed :
    {A : Type 0} (status_of : A → ProcessStatus) (a : A) (b : Bool) (P : Type 0)
    → OnProcessed (status_of a) P
    → IfProcessed status_of (reply_with a (if b then returned tt else raised)) P
if_processed status_of a true P p = p
if_processed status_of a false P p = tt

module _ (setup : Setup Entries) (r : IsRemembering setup) (deadline : ℕ) (raw : RawMessage)
    (envelope : MessageEnvelope) where
  abbrev pub Remembers :
      {A : Type 0} → (A → ProcessStatus) → Reply A × QueueTrigger Entries → Type 0
  Remembers status_of (reply, t) =
      IfProcessed status_of reply (Holds setup (some (dedup_key_of envelope)) deadline t)

  finish_delivery-Remembers :
      (trace_id tenant_id : String) (d : Delivered) (t : QueueTrigger Entries)
      → Holds setup none deadline t
      → Remembers envelope_status (finish_delivery setup raw envelope trace_id tenant_id (d, t))
  unfolding finish_delivery
  finish_delivery-Remembers trace_id tenant_id (failed error) t h =
      let d =
        error_disposition setup.config.ack_policy (redact_text setup.externals.patterns error) in
      let t' = log (settled raw d) (count_failure t) in
      if_processed envelope_status (processing_error, none, tenant_id)
        (setup.externals.adapter_ok t'.effects)
        (Holds setup (some (dedup_key_of envelope)) deadline t') tt
  finish_delivery-Remembers trace_id tenant_id (delivered answer) t h =
      let key = dedup_key_of envelope in
      let t' = log (settled raw acked) (remember setup key trace_id t) in
      if_processed envelope_status
        (processed, extract_agent_run_id setup.externals.text_of answer, tenant_id)
        (setup.externals.adapter_ok t'.effects) (Holds setup (some key) deadline t')
        (settle-Holds setup r (some key) deadline raw acked (remember setup key trace_id t)
          (remember-Holds_key setup r key trace_id deadline t h.0))

  after_lookup-Remembers :
      (trace_id tenant_id : String) (b : Bool) (t : QueueTrigger Entries)
      → Holds setup none deadline t
      → Remembers envelope_status (after_lookup setup raw envelope trace_id tenant_id (b, t))
  unfolding after_lookup trigger_agent_with_retry
  after_lookup-Remembers trace_id tenant_id true t h =
      let t' = log (settled raw acked) (count_dedup_hit t) in
      if_processed envelope_status (deduplicated, none, tenant_id)
        (setup.externals.adapter_ok t'.effects)
        (Holds setup (some (dedup_key_of envelope)) deadline t') tt
  after_lookup-Remembers trace_id tenant_id false t h =
      let run = trigger_agent_with_retry setup envelope trace_id tenant_id t in
      finish_delivery-Remembers trace_id tenant_id run.0 run.1 (
        with_runtime-Holds setup r none deadline (request_of setup envelope trace_id tenant_id)
          setup.externals.trigger_event t h)

  rejection-Remembers :
      (trace_id tenant_id : String) (decision : GovernanceDecision) (t : QueueTrigger Entries)
      → let (reply, t') =
          handle_governance_rejection setup raw envelope tenant_id decision trace_id t in
        Remembers envelope_status (reply_with (governance_rejected, none, tenant_id) reply, t')
  unfolding handle_governance_rejection
  rejection-Remembers trace_id tenant_id decision t =
      let t' = (handle_governance_rejection setup raw envelope tenant_id decision trace_id t).1 in
      if_processed envelope_status (governance_rejected, none, tenant_id)
        (setup.externals.adapter_ok t'.effects)
        (Holds setup (some (dedup_key_of envelope)) deadline t') tt

  after_check-Remembers :
      (trace_id tenant_id : String) (decision : GovernanceDecision) (t : QueueTrigger Entries)
      → Holds setup none deadline t
      → Remembers envelope_status (after_check setup raw envelope trace_id tenant_id (decision, t))
  unfolding after_check
  after_check-Remembers trace_id tenant_id decision t h =
      let looked = seen_before setup (dedup_key_of envelope) t in
      elim (Bool-cases decision.allowed) [
        | inl allowed ↦ rw allowed (
            after_lookup-Remembers trace_id tenant_id looked.0 looked.1
              (seen_before-Holds setup r none (dedup_key_of envelope) deadline t h))
        | inr denied ↦ rw denied (rejection-Remembers trace_id tenant_id decision t)
      ]

  process_envelope-Remembers :
      (trace_id : String) (t : QueueTrigger Entries)
      → Holds setup none deadline t
      → Remembers envelope_status (process_envelope setup raw envelope trace_id t)
  unfolding process_envelope
  process_envelope-Remembers trace_id t h =
      go (resolve_tenant_id setup.externals.secrets setup.config envelope)
    where
      go :
          (o : Option String)
          → Remembers envelope_status (with_tenant setup raw envelope trace_id o t)
      go none = tt
      go (some tenant_id) =
          let checked = check_governance setup envelope tenant_id t in
          after_check-Remembers trace_id tenant_id checked.0 checked.1
            (check_governance-Holds setup r none deadline envelope tenant_id t h)

  finish_message-Remembers :
      (started : ℕ) (reply : Reply EnvelopeResult) (t : QueueTrigger Entries)
      → Remembers envelope_status (reply, t)
      → Remembers result_status (finish_message setup raw envelope started (reply, t))
  unfolding finish_message
  finish_message-Remembers started raised t h = tt
  finish_message-Remembers started (returned (processed, run_id, tenant_id)) t h =
      finish_message-Holds setup r (some (dedup_key_of envelope)) deadline raw envelope started
        (returned (processed, run_id, tenant_id)) t h
  finish_message-Remembers started (returned (deduplicated, x, y)) t h = tt
  finish_message-Remembers started (returned (governance_rejected, x, y)) t h = tt
  finish_message-Remembers started (returned (processing_error, x, y)) t h = tt
  finish_message-Remembers started (returned (parse_error, x, y)) t h = tt

  pub process_message-Remembers :
      (t : QueueTrigger Entries)
      → parse_of setup raw ≡ parsed_as envelope
      → Holds setup none deadline t
      → Remembers result_status (process_message setup raw t)
  unfolding process_message
  process_message-Remembers t parsed h =
      let run = process_envelope setup raw envelope (trace_id_of raw) t in
      rw parsed (
        finish_message-Remembers (setup.externals.perf_counter t.effects) run.0 run.1
          (process_envelope-Remembers (trace_id_of raw) t h))
