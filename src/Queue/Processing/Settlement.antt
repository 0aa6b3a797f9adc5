-- ===== src/Queue/Processing/Settlement.antt =====
-- owlclaw/triggers/queue/trigger.py: the adapter's calls in `_process_envelope`.
use owlclaw.Base.{
  Bool, Bool-cases, String, ap, false, if◌then◌else◌, inl, inr, none, refl, some, true, ◌∙◌, ◌∷◌,
  ◌≡◌,
}
use owlclaw.Queue.Checks.{
  check_governance, handle_governance_rejection, record_entry, rejection_entry, remember,
  seen_before,
}
use owlclaw.Queue.Config.{QueueTriggerConfig}
use owlclaw.Queue.Decisions.{
  GovernanceDecision, dedup_key_of, error_disposition, extract_agent_run_id, reason_of,
  rejection_disposition,
}
use owlclaw.Queue.Effects.{Disposition, Setup, acked, dead_lettered, settled}
use owlclaw.Queue.Models.{MessageEnvelope, RawMessage}
use owlclaw.Queue.Processing.{
  EnvelopeResult, ProcessResult, ProcessStatus, after_check, after_lookup, deduplicated,
  finish_delivery, governance_rejected, parse_error, process_envelope, processed, processing_error,
  reply_with,
}
use owlclaw.Queue.Processing.Frames.{
  Frames, Frames-trans, Quiet, Quiet-trans, check_governance-Quiet, record_entry-Quiet,
  remember-Quiet, seen_before-Quiet, trigger_agent_with_retry-Quiet,
}
use owlclaw.Queue.Redaction.{redact_text}
use owlclaw.Queue.Retry.{Delivered, delivered, failed, trigger_agent_with_retry}
use owlclaw.Queue.Retry.Attempts.{settlements}
use owlclaw.Queue.Runtime.{
  QueueTrigger, Reply, count_dedup_hit, count_failure, log, raised, returned, settle_message,
}
use owlclaw.Queue.Tenant.{resolve_tenant_id}

-- The dispositions that go with a status, by the configured policy.
abbrev pub IsFitting : QueueTriggerConfig → ProcessStatus → Disposition → Type 0
IsFitting c processed d = d ≡ acked
IsFitting c deduplicated d = d ≡ acked
IsFitting c governance_rejected d =
    (reason : String) × (d ≡ rejection_disposition c.ack_policy reason)
IsFitting c processing_error d = (error : String) × (d ≡ error_disposition c.ack_policy error)
IsFitting c parse_error d = (reason : String) × (d ≡ dead_lettered reason)

abbrev pub Says : {A : Type 0} → (A → ProcessStatus) → ProcessStatus → Reply A → Type 0
Says status_of status (returned a) = status_of a ≡ status
Says status_of status raised = Unit

abbrev pub envelope_status : EnvelopeResult → ProcessStatus
envelope_status (status, run_id, tenant_id) = status

abbrev pub result_status : ProcessResult → ProcessStatus
result_status result = result.status

module _ {S : Type 0} where
  -- The counter that a status changes before the adapter is called.
  abbrev pub bump : ProcessStatus → QueueTrigger S → QueueTrigger S
  bump processed t = t
  bump deduplicated t = count_dedup_hit t
  bump governance_rejected t = count_failure t
  bump processing_error t = count_failure t
  bump parse_error t = count_failure t

  -- One call of the adapter more, fit for the status that a reply has, and its counter changed.
  abbrev pub Handled :
      {A : Type 0}
      → Setup S
      → (A → ProcessStatus)
      → RawMessage
      → QueueTrigger S
      → Reply A × QueueTrigger S
      → Type 0
  Handled setup status_of raw t (reply, t') =
      (status : ProcessStatus) × (d : Disposition) × (settlements t'.effects
        ≡ (raw, d) ∷ settlements t.effects)
      × IsFitting setup.config status d
      × Frames (bump status t) t'
      × Says status_of status reply

  settle-Handled :
      {A : Type 0} (setup : Setup S) (status_of : A → ProcessStatus) (raw : RawMessage)
      (status : ProcessStatus) (d : Disposition) (a : A) (t t' : QueueTrigger S)
      → IsFitting setup.config status d
      → status_of a ≡ status
      → Frames (bump status t) t'
      → settlements t'.effects ≡ settlements t.effects
      → Handled setup status_of raw t
          (reply_with a (settle_message setup raw d t').0, (settle_message setup raw d t').1)
  settle-Handled setup status_of raw status d a t t' fit same frames settles = (
    status,
    d,
    ap (λ rest. (raw, d) ∷ rest) settles,
    fit,
    Frames-trans (bump status t) t' (log (settled raw d) t') frames refl,
    go (setup.externals.adapter_ok (settled raw d ∷ t'.effects)),
  )
    where
      go : (b : Bool) → Says status_of status (reply_with a (if b then returned tt else raised))
      go true = same
      go false = tt

  finish_delivery-Handled :
      (setup : Setup S) (raw : RawMessage) (envelope : MessageEnvelope)
      (trace_id tenant_id : String) (d : Delivered) (t t' : QueueTrigger S)
      → Quiet t t'
      → Handled setup envelope_status raw t
          (finish_delivery setup raw envelope trace_id tenant_id (d, t'))
  unfolding finish_delivery
  finish_delivery-Handled setup raw envelope trace_id tenant_id (failed error) t t' quiet =
      let safe_error = redact_text setup.externals.patterns error in
      settle-Handled setup envelope_status raw processing_error
        (error_disposition setup.config.ack_policy safe_error) (processing_error, none, tenant_id) t
        (count_failure t') (safe_error, refl) refl
        (ap (λ (x : QueueTrigger S). count_failure x) quiet.0) quiet.1
  finish_delivery-Handled setup raw envelope trace_id tenant_id (delivered answer) t t' quiet =
      let key = dedup_key_of envelope in
      let all =
        Quiet-trans t t' (remember setup key trace_id t') quiet
          (remember-Quiet setup key trace_id t') in
      settle-Handled setup envelope_status raw processed acked
        (processed, extract_agent_run_id setup.externals.text_of answer, tenant_id) t
        (remember setup key trace_id t') refl refl all.0 all.1

  after_lookup-Handled :
      (setup : Setup S) (raw : RawMessage) (envelope : MessageEnvelope)
      (trace_id tenant_id : String) (b : Bool) (t t' : QueueTrigger S)
      → Quiet t t'
      → Handled setup envelope_status raw t
          (after_lookup setup raw envelope trace_id tenant_id (b, t'))
  unfolding after_lookup
  after_lookup-Handled setup raw envelope trace_id tenant_id true t t' quiet =
      settle-Handled setup envelope_status raw deduplicated acked (deduplicated, none, tenant_id) t
        (count_dedup_hit t') refl refl (ap (λ (x : QueueTrigger S). count_dedup_hit x) quiet.0)
        quiet.1
  after_lookup-Handled setup raw envelope trace_id tenant_id false t t' quiet =
      let run = trigger_agent_with_retry setup envelope trace_id tenant_id t' in
      finish_delivery-Handled setup raw envelope trace_id tenant_id run.0 t run.1 (
        Quiet-trans t t' run.1 quiet
          (trigger_agent_with_retry-Quiet setup envelope trace_id tenant_id t'))

  rejection-Handled :
      (setup : Setup S) (raw : RawMessage) (envelope : MessageEnvelope)
      (trace_id tenant_id : String) (decision : GovernanceDecision) (t t' : QueueTrigger S)
      → Quiet t t'
      → let (reply, t'') =
          handle_governance_rejection setup raw envelope tenant_id decision trace_id t' in
        Handled setup envelope_status raw t
          (reply_with (governance_rejected, none, tenant_id) reply, t'')
  unfolding handle_governance_rejection
  rejection-Handled setup raw envelope trace_id tenant_id decision t t' quiet =
      let entry = rejection_entry setup envelope tenant_id decision trace_id in
      let recording = record_entry-Quiet setup entry (count_failure t') in
      settle-Handled setup envelope_status raw governance_rejected
        (rejection_disposition setup.config.ack_policy (reason_of decision))
        (governance_rejected, none, tenant_id) t (record_entry setup entry (count_failure t'))
        (reason_of decision, refl) refl
        (Frames-trans (count_failure t) (count_failure t')
          (record_entry setup entry (count_failure t'))
          (ap (λ (x : QueueTrigger S). count_failure x) quiet.0) recording.0)
        (recording.1 ∙ quiet.1)

  after_check-Handled :
      (setup : Setup S) (raw : RawMessage) (envelope : MessageEnvelope)
      (trace_id tenant_id : String) (decision : GovernanceDecision) (t t' : QueueTrigger S)
      → Quiet t t'
      → Handled setup envelope_status raw t
          (after_check setup raw envelope trace_id tenant_id (decision, t'))
  unfolding after_check
  after_check-Handled setup raw envelope trace_id tenant_id decision t t' quiet =
      let key = dedup_key_of envelope in
      let looked = seen_before setup key t' in
      elim (Bool-cases decision.allowed) [
        | inl allowed ↦ rw allowed (
            after_lookup-Handled setup raw envelope trace_id tenant_id looked.0 t looked.1
              (Quiet-trans t t' looked.1 quiet (seen_before-Quiet setup key t')))
        | inr denied ↦
            rw denied (rejection-Handled setup raw envelope trace_id tenant_id decision t t' quiet)
      ]

  pub process_envelope-Handled :
      (setup : Setup S) (raw : RawMessage) (envelope : MessageEnvelope)
      (trace_id tenant_id : String) (t : QueueTrigger S)
      → resolve_tenant_id setup.externals.secrets setup.config envelope ≡ some tenant_id
      → Handled setup envelope_status raw t (process_envelope setup raw envelope trace_id t)
  unfolding process_envelope
  process_envelope-Handled setup raw envelope trace_id tenant_id t resolved =
      let checked = check_governance setup envelope tenant_id t in
      rw resolved (
        after_check-Handled setup raw envelope trace_id tenant_id checked.0 t checked.1
          (check_governance-Quiet setup envelope tenant_id t))
