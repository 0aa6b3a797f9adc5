-- ===== src/Queue/Processing/Dedup/Kept.antt =====
-- owlclaw/triggers/queue/trigger.py: a key that is held, behind the parts of a message's processing.
use owlclaw.Base.{
  Bool, Bool-cases, List, Option, String, false, if◌then◌else◌, inl, inr, none, some, suc, true,
  zero, ℕ, ◌∷◌,
}
use owlclaw.Base.Int.{leb_ℤ, pos}
use owlclaw.Queue.Checks.{
  ask_permission, handle_governance_rejection, record_entry, rejection_entry, remember, seen_before,
}
use owlclaw.Queue.Decisions.{
  GovernanceDecision, dedup_key_of, error_disposition, reason_of, rejection_disposition,
}
use owlclaw.Queue.Effects.{
  Disposition, Effect, GovernanceContext, GovernanceReply, LedgerEntry, Setup, TriggerOutcome,
  TriggerRequest, acked, asked_permission, recorded, settled, slept, trigger_raised,
  trigger_returned, triggered,
}
use owlclaw.Queue.Idempotency.{Entries}
use owlclaw.Queue.Models.{MessageEnvelope, RawMessage}
use owlclaw.Queue.Processing.{after_check, after_lookup, finish_delivery}
use owlclaw.Queue.Processing.Dedup.{
  Holds, IsRemembering, log-Holds, remember-Holds, seen_before-Holds,
}
use owlclaw.Queue.Redaction.{redact_text}
use owlclaw.Queue.Retry.{
  Delivered, after_attempt, attempt_from, attempts_of, compute_backoff, delivered, failed,
  request_of, trigger_agent_with_retry, with_runtime,
}
use owlclaw.Queue.Runtime.{
  QueueTrigger, count_dedup_hit, count_failure, count_retry, log, settle_message,
}

module _ (setup : Setup Entries) (r : IsRemembering setup) where
  after_attempt-Holds :
      (k : Option String) (deadline attempt : ℕ) (request : TriggerRequest) (o : TriggerOutcome)
      (t : QueueTrigger Entries) (retry : String → Delivered × QueueTrigger Entries)
      → Holds setup k deadline (log (triggered request) t)
      → ((error : String) → Holds setup k deadline (retry error).1)
      → Holds setup k deadline
          (after_attempt setup.config.max_retries attempt o (log (triggered request) t) retry).1
  after_attempt-Holds k deadline attempt request (trigger_returned answer) t retry h retried = h
  after_attempt-Holds k deadline attempt request (trigger_raised error) t retry h retried =
      elim (Bool-cases (leb_ℤ setup.config.max_retries (pos attempt))) [
        | inl last ↦ rw last h
        | inr early ↦ rw early (retried error)
      ]

  attempt_from-Holds :
      (k : Option String) (deadline : ℕ) (trigger_event : List Effect → TriggerOutcome)
      (request : TriggerRequest) (rounds attempt : ℕ) (last_error : Option String)
      (t : QueueTrigger Entries)
      → Holds setup k deadline t
      → Holds setup k deadline
          (attempt_from setup trigger_event request rounds attempt last_error t).1
  unfolding attempt_from
  attempt_from-Holds k deadline trigger_event request zero attempt last_error t h = h
  attempt_from-Holds k deadline trigger_event request (suc rounds) attempt last_error t h =
      let called = log-Holds setup r k deadline (triggered request) t h in
      let delay = slept (compute_backoff setup.config attempt) in
      let next = log delay (count_retry (log (triggered request) t)) in
      after_attempt-Holds k deadline attempt request (trigger_event (triggered request ∷ t.effects))
        t (λ error. attempt_from setup trigger_event request rounds (suc attempt) (some error) next)
        called
        (λ error.
          attempt_from-Holds k deadline trigger_event request rounds (suc attempt) (some error) next
            (log-Holds setup r k deadline delay (count_retry (log (triggered request) t)) called))

  pub with_runtime-Holds :
      (k : Option String) (deadline : ℕ) (request : TriggerRequest)
      (o : Option (List Effect → TriggerOutcome)) (t : QueueTrigger Entries)
      → Holds setup k deadline t
      → Holds setup k deadline (with_runtime setup request o t).1
  with_runtime-Holds k deadline request none t h = h
  with_runtime-Holds k deadline request (some trigger_event) t h =
      attempt_from-Holds k deadline trigger_event request (attempts_of setup.config.max_retries) 0
        none t h

  pub ask_permission-Holds :
      (k : Option String) (deadline : ℕ) (context : GovernanceContext)
      (o : Option (List Effect → GovernanceReply)) (t : QueueTrigger Entries)
      → Holds setup k deadline t
      → Holds setup k deadline (ask_permission setup context o t).1
  ask_permission-Holds k deadline context none t h = h
  ask_permission-Holds k deadline context (some check_permission) t h =
      log-Holds setup r k deadline (asked_permission context) t h

  pub record_entry-Holds :
      (k : Option String) (deadline : ℕ) (entry : LedgerEntry) (t : QueueTrigger Entries)
      → Holds setup k deadline t
      → Holds setup k deadline (record_entry setup entry t)
  record_entry-Holds k deadline entry t h = go setup.externals.has_ledger
    where
      go : (b : Bool) → Holds setup k deadline (if b then log (recorded entry) t else t)
      go true = log-Holds setup r k deadline (recorded entry) t h
      go false = h

  pub settle-Holds :
      (k : Option String) (deadline : ℕ) (raw : RawMessage) (d : Disposition)
      (t : QueueTrigger Entries)
      → Holds setup k deadline t
      → Holds setup k deadline (settle_message setup raw d t).1
  settle-Holds k deadline raw d t h = log-Holds setup r k deadline (settled raw d) t h

  pub finish_delivery-Holds :
      (k : Option String) (deadline : ℕ) (raw : RawMessage) (envelope : MessageEnvelope)
      (trace_id tenant_id : String) (d : Delivered) (t : QueueTrigger Entries)
      → Holds setup k deadline t
      → Holds setup k deadline (finish_delivery setup raw envelope trace_id tenant_id (d, t)).1
  unfolding finish_delivery
  finish_delivery-Holds k deadline raw envelope trace_id tenant_id (failed error) t h =
      settle-Holds k deadline raw
        (error_disposition setup.config.ack_policy (redact_text setup.externals.patterns error))
        (count_failure t) h
  finish_delivery-Holds k deadline raw envelope trace_id tenant_id (delivered answer) t h =
      let j = dedup_key_of envelope in
      settle-Holds k deadline raw acked (remember setup j trace_id t)
        (remember-Holds setup r k j trace_id deadline t h)

  pub after_lookup-Holds :
      (k : Option String) (deadline : ℕ) (raw : RawMessage) (envelope : MessageEnvelope)
      (trace_id tenant_id : String) (b : Bool) (t : QueueTrigger Entries)
      → Holds setup k deadline t
      → Holds setup k deadline (after_lookup setup raw envelope trace_id tenant_id (b, t)).1
  unfolding after_lookup trigger_agent_with_retry
  after_lookup-Holds k deadline raw envelope trace_id tenant_id true t h =
      settle-Holds k deadline raw acked (count_dedup_hit t) h
  after_lookup-Holds k deadline raw envelope trace_id tenant_id false t h =
      let run = trigger_agent_with_retry setup envelope trace_id tenant_id t in
      finish_delivery-Holds k deadline raw envelope trace_id tenant_id run.0 run.1 (
        with_runtime-Holds k deadline (request_of setup envelope trace_id tenant_id)
          setup.externals.trigger_event t h)

  pub after_check-Holds :
      (k : Option String) (deadline : ℕ) (raw : RawMessage) (envelope : MessageEnvelope)
      (trace_id tenant_id : String) (decision : GovernanceDecision) (t : QueueTrigger Entries)
      → Holds setup k deadline t
      → Holds setup k deadline (after_check setup raw envelope trace_id tenant_id (decision, t)).1
  unfolding after_check handle_governance_rejection
  after_check-Holds k deadline raw envelope trace_id tenant_id decision t h =
      let looked = seen_before setup (dedup_key_of envelope) t in
      let entry = rejection_entry setup envelope tenant_id decision trace_id in
      elim (Bool-cases decision.allowed) [
        | inl allowed ↦ rw allowed (
            after_lookup-Holds k deadline raw envelope trace_id tenant_id looked.0 looked.1
              (seen_before-Holds setup r k (dedup_key_of envelope) deadline t h))
        | inr denied ↦ rw denied (
            settle-Holds k deadline raw
              (rejection_disposition setup.config.ack_policy (reason_of decision))
              (record_entry setup entry (count_failure t))
              (record_entry-Holds k deadline entry (count_failure t) h))
      ]
