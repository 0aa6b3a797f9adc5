-- ===== src/Queue/Processing/Calls.antt =====
-- When a message does not call the runtime.
use owlclaw.Base.{
  Bool, Bool-cases, List, Option, String, arith, false, if◌then◌else◌, inl, inr, none, refl, some,
  true, ℕ, ◌-◌, ◌∙◌, ◌∷◌, ◌≡◌,
}
use owlclaw.Queue.Checks.{
  after_exists, ask_permission, ask_store, check_governance, context_of,
  handle_governance_rejection, record_entry, rejection_entry, seen_before, success_entry,
}
use owlclaw.Queue.Decisions.{GovernanceDecision, dedup_key_of}
use owlclaw.Queue.Effects.{
  Effect, GovernanceContext, GovernanceReply, LedgerEntry, Setup, asked_store, recorded,
}
use owlclaw.Queue.Idempotency.{IdempotencyStore}
use owlclaw.Queue.Models.{MessageEnvelope, RawMessage, parsed_as}
use owlclaw.Queue.Processing.{
  EnvelopeResult, after_check, after_lookup, deduplicated, finish_message, governance_rejected,
  parse_error, process_envelope, process_message, processed, processing_error, trace_id_of,
}
use owlclaw.Queue.Processing.Messages.{parse_of}
use owlclaw.Queue.Retry.Attempts.{triggers}
use owlclaw.Queue.Runtime.{QueueTrigger, Reply, count_failure, log, raised, returned}
use owlclaw.Queue.Tenant.{resolve_tenant_id}

module _ {S : Type 0} (setup : Setup S) where
  ask_permission-triggers :
      (context : GovernanceContext) (o : Option (List Effect → GovernanceReply))
      (t : QueueTrigger S)
      → triggers (ask_permission setup context o t).1.effects ≡ triggers t.effects
  ask_permission-triggers context none t = refl
  ask_permission-triggers context (some check_permission) t = omega arith

  pub check_governance-triggers :
      (envelope : MessageEnvelope) (tenant_id : String) (t : QueueTrigger S)
      → triggers (check_governance setup envelope tenant_id t).1.effects ≡ triggers t.effects
  unfolding check_governance
  check_governance-triggers envelope tenant_id t =
      ask_permission-triggers (context_of setup envelope tenant_id) setup.externals.check_permission
        t

  record_entry-triggers :
      (entry : LedgerEntry) (t : QueueTrigger S)
      → triggers (record_entry setup entry t).effects ≡ triggers t.effects
  record_entry-triggers entry t = go setup.externals.has_ledger
    where
      go :
          (b : Bool)
          → triggers (if b then log (recorded entry) t else t).effects ≡ triggers t.effects
      go true = omega arith
      go false = refl

  after_exists-triggers :
      (o : Option (Bool × S)) (key : String) (t : QueueTrigger S)
      → triggers (after_exists o (log (asked_store key) t)).1.effects ≡ triggers t.effects
  after_exists-triggers none key t = omega arith
  after_exists-triggers (some (exists, entries)) key t = omega arith

  ask_store-triggers :
      (key : String) (b : Bool) (o : Option (IdempotencyStore S)) (t : QueueTrigger S)
      → triggers (ask_store setup key b o t).1.effects ≡ triggers t.effects
  ask_store-triggers key true (some store) t =
      after_exists-triggers
        (store.exists t.entries (setup.externals.clock (asked_store key ∷ t.effects)) key) key t
  ask_store-triggers key true none t = refl
  ask_store-triggers key false store t = refl

  seen_before-triggers :
      (key : String) (t : QueueTrigger S)
      → triggers (seen_before setup key t).1.effects ≡ triggers t.effects
  unfolding seen_before
  seen_before-triggers key t = ask_store-triggers key setup.config.enable_dedup setup.store t

  pub rejection-triggers :
      (raw : RawMessage) (envelope : MessageEnvelope) (trace_id tenant_id : String)
      (decision : GovernanceDecision) (t : QueueTrigger S)
      → triggers
          (handle_governance_rejection setup raw envelope tenant_id decision trace_id t).1.effects
        ≡ triggers t.effects
  unfolding handle_governance_rejection
  rejection-triggers raw envelope trace_id tenant_id decision t =
      let entry = rejection_entry setup envelope tenant_id decision trace_id in
      omega (arith, record_entry-triggers entry (count_failure t))

  duplicate-triggers :
      (raw : RawMessage) (envelope : MessageEnvelope) (trace_id tenant_id : String) (b : Bool)
      (t : QueueTrigger S)
      → b ≡ true
      → triggers (after_lookup setup raw envelope trace_id tenant_id (b, t)).1.effects
        ≡ triggers t.effects
  unfolding after_lookup
  duplicate-triggers raw envelope trace_id tenant_id true t seen = omega arith
  duplicate-triggers raw envelope trace_id tenant_id false t seen = absurd (cc)

  pub finish_message-triggers :
      (raw : RawMessage) (envelope : MessageEnvelope) (started : ℕ) (reply : Reply EnvelopeResult)
      (t : QueueTrigger S)
      → triggers (finish_message setup raw envelope started (reply, t)).1.effects
        ≡ triggers t.effects
  unfolding finish_message
  finish_message-triggers raw envelope started raised t = refl
  finish_message-triggers raw envelope started (returned (processed, run_id, tenant_id)) t =
      let duration = setup.externals.perf_counter t.effects - started in
      record_entry-triggers
        (success_entry setup envelope tenant_id (trace_id_of raw) duration run_id) t
  finish_message-triggers raw envelope started (returned (deduplicated, x, y)) t = refl
  finish_message-triggers raw envelope started (returned (governance_rejected, x, y)) t = refl
  finish_message-triggers raw envelope started (returned (processing_error, x, y)) t = refl
  finish_message-triggers raw envelope started (returned (parse_error, x, y)) t = refl

  after_check-triggers :
      (raw : RawMessage) (envelope : MessageEnvelope) (trace_id tenant_id : String)
      (decision : GovernanceDecision) (t : QueueTrigger S)
      → (seen_before setup (dedup_key_of envelope) t).0 ≡ true
      → triggers (after_check setup raw envelope trace_id tenant_id (decision, t)).1.effects
        ≡ triggers t.effects
  unfolding after_check
  after_check-triggers raw envelope trace_id tenant_id decision t seen =
      let key = dedup_key_of envelope in
      let looked = seen_before setup key t in
      elim (Bool-cases decision.allowed) [
        | inl allowed ↦ rw allowed (
            duplicate-triggers raw envelope trace_id tenant_id looked.0 looked.1 seen
            ∙ seen_before-triggers key t)
        | inr denied ↦ rw denied (rejection-triggers raw envelope trace_id tenant_id decision t)
      ]

  -- A message whose key the store holds does not call the runtime.
  pub seen-triggers :
      (raw : RawMessage) (envelope : MessageEnvelope) (tenant_id : String) (t : QueueTrigger S)
      → parse_of setup raw ≡ parsed_as envelope
      → resolve_tenant_id setup.externals.secrets setup.config envelope ≡ some tenant_id
      → (seen_before setup
          (dedup_key_of envelope)
          (check_governance setup envelope tenant_id t).1).0
        ≡ true
      → triggers (process_message setup raw t).1.effects ≡ triggers t.effects
  unfolding process_message process_envelope
  seen-triggers raw envelope tenant_id t parsed resolved seen =
      let checked = check_governance setup envelope tenant_id t in
      let trace_id = trace_id_of raw in
      let run = process_envelope setup raw envelope trace_id t in
      let through : triggers run.1.effects ≡ triggers t.effects = rw resolved (
        after_check-triggers raw envelope trace_id tenant_id checked.0 checked.1 seen
        ∙ check_governance-triggers envelope tenant_id t) in
      rw parsed (
        finish_message-triggers raw envelope (setup.externals.perf_counter t.effects) run.0 run.1
        ∙ through)
