-- ===== src/Queue/Checks.antt =====
-- owlclaw/triggers/queue/trigger.py: the governance check, the ledger's entries and the idempotency
-- store, as they change the trigger.
use owlclaw.Base.{
  Bool, List, Option, String, [], false, if◌then◌else◌, none, some, true, ℕ, ◌/◌, ◌∷◌,
}
use owlclaw.Base.Value.{Value}
use owlclaw.Queue.Decisions.{
  GovernanceDecision, allow, decide, processed_value, reason_of, rejection_disposition,
}
use owlclaw.Queue.Effects.{
  Effect, GovernanceContext, GovernanceReply, LedgerEntry, Setup, asked_permission, asked_store,
  recorded, wrote_store,
}
use owlclaw.Queue.Idempotency.{IdempotencyStore}
use owlclaw.Queue.Models.{MessageEnvelope, RawMessage}
use owlclaw.Queue.Retry.{event_name_of}
use owlclaw.Queue.Runtime.{QueueTrigger, Reply, count_failure, log, settle_message}

module _ {S : Type 0} where
  abbrev pub context_of : Setup S → MessageEnvelope → String → GovernanceContext
  context_of setup envelope tenant_id = record {
    queue = setup.config.queue_name;
    message_id = envelope.message_id;
    tenant_id = tenant_id;
    event_name = event_name_of envelope;
  }

  abbrev pub ask_permission :
      Setup S
      → GovernanceContext
      → Option (List Effect → GovernanceReply)
      → QueueTrigger S
      → GovernanceDecision × QueueTrigger S
  ask_permission setup context none t = (allow true, t)
  ask_permission setup context (some check_permission) t =
      let t' = log (asked_permission context) t in
      (
        decide setup.config.governance_fail_open setup.externals.text_of
            (check_permission t'.effects),
        t',
      )

  -- `_check_governance`
  unfoldable pub check_governance :
      Setup S → MessageEnvelope → String → QueueTrigger S → GovernanceDecision × QueueTrigger S
  unfolding decide
  check_governance setup envelope tenant_id t =
      ask_permission setup (context_of setup envelope tenant_id) setup.externals.check_permission t

  -- The ledger's call in `_record_governance_rejection` and `_record_success_execution`; what it
  -- raises is caught.
  abbrev pub record_entry : Setup S → LedgerEntry → QueueTrigger S → QueueTrigger S
  record_entry setup entry t = if setup.externals.has_ledger then log (recorded entry) t else t

  abbrev pub rejection_entry :
      Setup S → MessageEnvelope → String → GovernanceDecision → String → LedgerEntry
  rejection_entry setup envelope tenant_id decision trace_id = record {
    tenant_id = tenant_id;
    run_id = trace_id;
    input_params =
        ("message_id", some envelope.message_id)
        ∷ ("queue", some setup.config.queue_name)
        ∷ ("event_name", envelope.event_name)
        ∷ [];
    output_result = none;
    decision_reasoning = reason_of decision;
    execution_time_ms = 0;
    status = "blocked";
    error_message = some (reason_of decision);
  }

  abbrev pub success_entry :
      Setup S → MessageEnvelope → String → String → ℕ → Option String → LedgerEntry
  success_entry setup envelope tenant_id trace_id duration agent_run_id = record {
    tenant_id = tenant_id;
    run_id = trace_id;
    input_params =
        ("trace_id", some trace_id)
        ∷ ("message_id", some envelope.message_id)
        ∷ ("queue", some setup.config.queue_name)
        ∷ ("event_name", some (event_name_of envelope))
        ∷ ("tenant_id", some tenant_id)
        ∷ [];
    output_result =
        some (record {
          status = "success";
          duration_ms = duration / 1000;
          agent_run_id = agent_run_id;
        });
    decision_reasoning = "queue_trigger_execution";
    execution_time_ms = duration / 1000;
    status = "success";
    error_message = none;
  }

  -- `_handle_governance_rejection`
  unfoldable pub handle_governance_rejection :
      Setup S
      → RawMessage
      → MessageEnvelope
      → String
      → GovernanceDecision
      → String
      → QueueTrigger S
      → Reply Unit × QueueTrigger S
  unfolding rejection_disposition
  handle_governance_rejection setup raw envelope tenant_id decision trace_id t =
      settle_message setup raw (rejection_disposition setup.config.ack_policy (reason_of decision))
        (record_entry setup (rejection_entry setup envelope tenant_id decision trace_id)
          (count_failure t))

  abbrev pub after_exists : Option (Bool × S) → QueueTrigger S → Bool × QueueTrigger S
  after_exists none t = (false, t)
  after_exists (some (exists, entries)) t = (exists, record t { entries = entries })

  abbrev pub ask_store :
      Setup S → String → Bool → Option (IdempotencyStore S) → QueueTrigger S → Bool × QueueTrigger S
  ask_store setup key true (some store) t =
      let t' = log (asked_store key) t in
      after_exists (store.exists t.entries (setup.externals.clock t'.effects) key) t'
  ask_store setup key true none t = (false, t)
  ask_store setup key false store t = (false, t)

  -- The question to the idempotency store; an exception counts as an absent key.
  unfoldable pub seen_before : Setup S → String → QueueTrigger S → Bool × QueueTrigger S
  seen_before setup key t = ask_store setup key setup.config.enable_dedup setup.store t

  abbrev pub after_set : Option S → QueueTrigger S → QueueTrigger S
  after_set none t = t
  after_set (some entries) t = record t { entries = entries }

  abbrev pub write_store :
      Setup S
      → String
      → Value
      → Bool
      → Option (IdempotencyStore S)
      → QueueTrigger S
      → QueueTrigger S
  write_store setup key value true (some store) t =
      let t' = log (wrote_store key value setup.config.idempotency_window) t in
      after_set
        (store.set t.entries (setup.externals.clock t'.effects) key value
          setup.config.idempotency_window)
        t'
  write_store setup key value true none t = t
  write_store setup key value false store t = t

  -- The write to the idempotency store; an exception is caught.
  unfoldable pub remember : Setup S → String → String → QueueTrigger S → QueueTrigger S
  remember setup key trace_id t =
      write_store setup key (processed_value trace_id) setup.config.enable_dedup setup.store t
