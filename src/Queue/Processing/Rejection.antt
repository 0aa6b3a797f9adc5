-- ===== src/Queue/Processing/Rejection.antt =====
-- owlclaw/triggers/queue/trigger.py: `_handle_governance_rejection` inside `_process_message`.
use owlclaw.Base.{List, String, ap, false, is_empty, none, refl, some, ℕ, ◌∙◌, ◌∷◌, ◌≡◌}
use owlclaw.Base.Value.{null}
use owlclaw.Queue.Checks.{
  ask_permission, check_governance, context_of, handle_governance_rejection, rejection_entry,
}
use owlclaw.Queue.Decisions.{GovernanceDecision, decide, reason_of, rejection_disposition}
use owlclaw.Queue.Effects.{Effect, GovernanceReply, Setup, asked_permission, check_raised}
use owlclaw.Queue.Models.{MessageEnvelope, RawMessage, parsed_as}
use owlclaw.Queue.Processing.{
  ProcessResult, after_check, finish_message, governance_rejected, process_envelope,
  process_message, reply_with, trace_id_of,
}
use owlclaw.Queue.Processing.Calls.{check_governance-triggers, rejection-triggers}
use owlclaw.Queue.Processing.Frames.{check_governance-Quiet, record_entry-Quiet}
use owlclaw.Queue.Processing.Messages.{parse_of}
use owlclaw.Queue.Processing.Settlement.{Says, result_status}
use owlclaw.Queue.Retry.Attempts.{settlements, triggers}
use owlclaw.Queue.Runtime.{QueueTrigger, Reply, count_failure, raised, returned}
use owlclaw.Queue.Tenant.{resolve_tenant_id}

module _ {S : Type 0} (setup : Setup S) (raw : RawMessage) (envelope : MessageEnvelope)
    (tenant_id : String) where
  -- What a rejected message leaves: no call of the runtime, the adapter's call that the policy names,
  -- and the status.
  abbrev pub IsRejected :
      GovernanceDecision → QueueTrigger S → Reply ProcessResult × QueueTrigger S → Type 0
  IsRejected decision t (reply, t') =
      (triggers t'.effects ≡ triggers t.effects)
      × (settlements t'.effects
          ≡ (raw, rejection_disposition setup.config.ack_policy (reason_of decision))
            ∷ settlements t.effects)
      × Says result_status governance_rejected reply

  rejection-settlements :
      (decision : GovernanceDecision) (t : QueueTrigger S)
      → settlements
          (handle_governance_rejection setup raw envelope tenant_id decision
            (trace_id_of raw)
            t).1.effects
        ≡ (raw, rejection_disposition setup.config.ack_policy (reason_of decision))
          ∷ settlements t.effects
  unfolding handle_governance_rejection
  rejection-settlements decision t =
      let entry = rejection_entry setup envelope tenant_id decision (trace_id_of raw) in
      ap (λ rest. (raw, rejection_disposition setup.config.ack_policy (reason_of decision)) ∷ rest)
        (record_entry-Quiet setup entry (count_failure t)).1

  rejected_reply :
      (reply : Reply Unit) (started : ℕ) (t : QueueTrigger S)
      → let (reply', t') =
          finish_message setup raw envelope started
            (reply_with (governance_rejected, none, tenant_id) reply, t) in
        Says result_status governance_rejected reply' × (t' ≡ t)
  unfolding finish_message
  rejected_reply (returned x) started t = (refl, refl)
  rejected_reply raised started t = (tt, refl)

  finish-IsRejected :
      (decision : GovernanceDecision) (started : ℕ) (t : QueueTrigger S)
      → let (reply, t') =
          handle_governance_rejection setup raw envelope tenant_id decision (trace_id_of raw) t in
        IsRejected decision t (
          finish_message setup raw envelope started
            (reply_with (governance_rejected, none, tenant_id) reply, t'))
  finish-IsRejected decision started t =
      let run =
        handle_governance_rejection setup raw envelope tenant_id decision (trace_id_of raw) t in
      let (says, same) = rejected_reply run.0 started run.1 in
      (
        ap (λ (x : QueueTrigger S). triggers x.effects) same
            ∙ rejection-triggers setup raw envelope (trace_id_of raw) tenant_id decision t,
        ap (λ (x : QueueTrigger S). settlements x.effects) same ∙ rejection-settlements decision t,
        says,
      )

  denied-IsRejected :
      (decision : GovernanceDecision) (started : ℕ) (t : QueueTrigger S)
      → decision.allowed ≡ false
      → IsRejected decision t (
          finish_message setup raw envelope started
            (after_check setup raw envelope (trace_id_of raw) tenant_id (decision, t)))
  unfolding after_check
  denied-IsRejected decision started t denied = rw denied (finish-IsRejected decision started t)

  -- A message that the governance layer does not allow does not call the runtime; it is disposed of by
  -- `ack_policy`, with the layer's reason, and its status is `governance_rejected` unless the adapter
  -- raises.
  pub process_message-IsRejected :
      (t : QueueTrigger S)
      → parse_of setup raw ≡ parsed_as envelope
      → resolve_tenant_id setup.externals.secrets setup.config envelope ≡ some tenant_id
      → (check_governance setup envelope tenant_id t).0.allowed ≡ false
      → IsRejected (check_governance setup envelope tenant_id t).0 t (process_message setup raw t)
  unfolding process_message process_envelope
  process_message-IsRejected t parsed resolved denied =
      let checked = check_governance setup envelope tenant_id t in
      let (called, settles, says) =
        denied-IsRejected checked.0 (setup.externals.perf_counter t.effects) checked.1 denied in
      rw parsed (
        rw resolved (
          called ∙ check_governance-triggers setup envelope tenant_id t,
          settles
              ∙ ap
                  (λ rest.
                    (raw, rejection_disposition setup.config.ack_policy (reason_of checked.0))
                    ∷ rest)
                  (check_governance-Quiet setup envelope tenant_id t).1,
          says,
        ))

  -- A governance layer that raises counts as a denial, for the reason `governance_unavailable`, where
  -- `governance_fail_open` is not set: the runtime is not called.
  pub process_message-fails_closed :
      (check_permission : List Effect → GovernanceReply) (t : QueueTrigger S)
      → parse_of setup raw ≡ parsed_as envelope
      → resolve_tenant_id setup.externals.secrets setup.config envelope ≡ some tenant_id
      → setup.externals.check_permission ≡ some check_permission
      → ((history : List Effect) → check_permission history ≡ check_raised)
      → setup.config.governance_fail_open ≡ false
      → (triggers (process_message setup raw t).1.effects ≡ triggers t.effects)
        × (settlements (process_message setup raw t).1.effects
            ≡ (raw, rejection_disposition setup.config.ack_policy "governance_unavailable")
              ∷ settlements t.effects)
  unfolding check_governance decide is_empty
  process_message-fails_closed check_permission t parsed resolved attached raises shut =
      let context = context_of setup envelope tenant_id in
      let decision : (check_governance setup envelope tenant_id t).0
          ≡ record { allowed = false; reason = "governance_unavailable"; policies = null } =
        ap (λ o. (ask_permission setup context o t).0) attached
        ∙ ap (λ reply. decide setup.config.governance_fail_open setup.externals.text_of reply)
            (raises (asked_permission context ∷ t.effects))
        ∙ ap (λ b. decide b setup.externals.text_of check_raised) shut in
      let (called, settles, says) =
        process_message-IsRejected t parsed resolved
          (ap (λ (d : GovernanceDecision). d.allowed) decision) in
      (
        called,
        settles
            ∙ ap
                (λ (d : GovernanceDecision).
                  (raw, rejection_disposition setup.config.ack_policy (reason_of d))
                  ∷ settlements t.effects)
                decision,
      )
