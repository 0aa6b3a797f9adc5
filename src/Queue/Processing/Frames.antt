-- ===== src/Queue/Processing/Frames.antt =====
-- owlclaw/triggers/queue/trigger.py: what the parts of a message's processing before the adapter's call
-- leave as it was.
use owlclaw.Base.{
  Bool, Bool-cases, List, Option, String, ap, false, if◌then◌else◌, inl, inr, none, refl, some, suc,
  true, zero, ℕ, ◌∙◌, ◌∷◌, ◌≡◌,
}
use owlclaw.Base.Int.{leb_ℤ, pos, ℤ}
use owlclaw.Base.Value.{Value}
use owlclaw.Queue.Checks.{
  after_exists, after_set, ask_permission, ask_store, check_governance, context_of, record_entry,
  remember, seen_before, write_store,
}
use owlclaw.Queue.Decisions.{processed_value}
use owlclaw.Queue.Effects.{
  Effect, GovernanceContext, GovernanceReply, LedgerEntry, Setup, TriggerOutcome, TriggerRequest,
  asked_store, recorded, slept, trigger_raised, trigger_returned, triggered, wrote_store,
}
use owlclaw.Queue.Idempotency.{IdempotencyStore}
use owlclaw.Queue.Models.{MessageEnvelope}
use owlclaw.Queue.Retry.{
  Delivered, after_attempt, attempt_from, attempts_of, compute_backoff, request_of,
  trigger_agent_with_retry, with_runtime,
}
use owlclaw.Queue.Retry.Attempts.{settlements}
use owlclaw.Queue.Runtime.{QueueTrigger, count_retry, log}

module _ {S : Type 0} where
  -- Only the effects, the store's entries and the count of the retries differ.
  abbrev pub Frames : QueueTrigger S → QueueTrigger S → Type 0
  Frames t t' = t' ≡ record t {
    effects = t'.effects;
    entries = t'.entries;
    metrics = record t.metrics { retries_total = t'.metrics.retries_total };
  }

  abbrev pub Quiet : QueueTrigger S → QueueTrigger S → Type 0
  Quiet t t' = Frames t t' × (settlements t'.effects ≡ settlements t.effects)

  pub Frames-trans : (t t' t'' : QueueTrigger S) → Frames t t' → Frames t' t'' → Frames t t''
  Frames-trans t t' t'' h k =
      k
      ∙ ap {A = QueueTrigger S} {B = QueueTrigger S}
          (λ x. record x {
            effects = t''.effects;
            entries = t''.entries;
            metrics = record x.metrics { retries_total = t''.metrics.retries_total };
          })
          h

  pub Quiet-trans : (t t' t'' : QueueTrigger S) → Quiet t t' → Quiet t' t'' → Quiet t t''
  Quiet-trans t t' t'' h k = (Frames-trans t t' t'' h.0 k.0, k.1 ∙ h.1)

  ask_permission-Quiet :
      (setup : Setup S) (context : GovernanceContext) (o : Option (List Effect → GovernanceReply))
      (t : QueueTrigger S)
      → Quiet t (ask_permission setup context o t).1
  ask_permission-Quiet setup context none t = (refl, refl)
  ask_permission-Quiet setup context (some check_permission) t = (refl, refl)

  pub check_governance-Quiet :
      (setup : Setup S) (envelope : MessageEnvelope) (tenant_id : String) (t : QueueTrigger S)
      → Quiet t (check_governance setup envelope tenant_id t).1
  unfolding check_governance
  check_governance-Quiet setup envelope tenant_id t =
      ask_permission-Quiet setup (context_of setup envelope tenant_id)
        setup.externals.check_permission t

  pub record_entry-Quiet :
      (setup : Setup S) (entry : LedgerEntry) (t : QueueTrigger S)
      → Quiet t (record_entry setup entry t)
  record_entry-Quiet setup entry t = go setup.externals.has_ledger
    where
      go : (b : Bool) → Quiet t (if b then log (recorded entry) t else t)
      go true = (refl, refl)
      go false = (refl, refl)

  after_exists-Quiet :
      (o : Option (Bool × S)) (key : String) (t : QueueTrigger S)
      → Quiet t (after_exists o (log (asked_store key) t)).1
  after_exists-Quiet none key t = (refl, refl)
  after_exists-Quiet (some (exists, entries)) key t = (refl, refl)

  ask_store-Quiet :
      (setup : Setup S) (key : String) (b : Bool) (o : Option (IdempotencyStore S))
      (t : QueueTrigger S)
      → Quiet t (ask_store setup key b o t).1
  ask_store-Quiet setup key true (some store) t =
      after_exists-Quiet
        (store.exists t.entries (setup.externals.clock (asked_store key ∷ t.effects)) key) key t
  ask_store-Quiet setup key true none t = (refl, refl)
  ask_store-Quiet setup key false store t = (refl, refl)

  pub seen_before-Quiet :
      (setup : Setup S) (key : String) (t : QueueTrigger S) → Quiet t (seen_before setup key t).1
  unfolding seen_before
  seen_before-Quiet setup key t = ask_store-Quiet setup key setup.config.enable_dedup setup.store t

  after_set-Quiet :
      (o : Option S) (key : String) (value : Value) (ttl : ℤ) (t : QueueTrigger S)
      → Quiet t (after_set o (log (wrote_store key value ttl) t))
  after_set-Quiet none key value ttl t = (refl, refl)
  after_set-Quiet (some entries) key value ttl t = (refl, refl)

  write_store-Quiet :
      (setup : Setup S) (key : String) (value : Value) (b : Bool) (o : Option (IdempotencyStore S))
      (t : QueueTrigger S)
      → Quiet t (write_store setup key value b o t)
  write_store-Quiet setup key value true (some store) t =
      let ttl = setup.config.idempotency_window in
      after_set-Quiet
        (store.set t.entries (setup.externals.clock (wrote_store key value ttl ∷ t.effects)) key
          value ttl)
        key value ttl t
  write_store-Quiet setup key value true none t = (refl, refl)
  write_store-Quiet setup key value false store t = (refl, refl)

  pub remember-Quiet :
      (setup : Setup S) (key trace_id : String) (t : QueueTrigger S)
      → Quiet t (remember setup key trace_id t)
  unfolding remember
  remember-Quiet setup key trace_id t =
      write_store-Quiet setup key (processed_value trace_id) setup.config.enable_dedup setup.store t

  module _ (setup : Setup S) (trigger_event : List Effect → TriggerOutcome)
      (request : TriggerRequest) where
    after_attempt-Quiet :
        (attempt : ℕ) (o : TriggerOutcome) (t : QueueTrigger S)
        (retry : String → Delivered × QueueTrigger S)
        → ((error : String) → Quiet t (retry error).1)
        → Quiet t
            (after_attempt setup.config.max_retries attempt o (log (triggered request) t) retry).1
    after_attempt-Quiet attempt (trigger_returned r) t retry h = (refl, refl)
    after_attempt-Quiet attempt (trigger_raised error) t retry h =
        elim (Bool-cases (leb_ℤ setup.config.max_retries (pos attempt))) [
          | inl last ↦ rw last (refl, refl)
          | inr early ↦ rw early (h error)
        ]

    attempt_from-Quiet :
        (rounds attempt : ℕ) (last_error : Option String) (t : QueueTrigger S)
        → Quiet t (attempt_from setup trigger_event request rounds attempt last_error t).1
    unfolding attempt_from
    attempt_from-Quiet zero attempt last_error t = (refl, refl)
    attempt_from-Quiet (suc rounds) attempt last_error t =
        after_attempt-Quiet attempt (trigger_event (triggered request ∷ t.effects)) t
          (λ error. attempt_from setup trigger_event request rounds (suc attempt) (some error) (
            log (slept (compute_backoff setup.config attempt))
              (count_retry (log (triggered request) t))))
          (λ error.
            let next =
              log (slept (compute_backoff setup.config attempt))
                (count_retry (log (triggered request) t)) in
            Quiet-trans t next
              (attempt_from setup trigger_event request rounds (suc attempt) (some error) next).1
              (refl, refl) (attempt_from-Quiet rounds (suc attempt) (some error) next))

  with_runtime-Quiet :
      (setup : Setup S) (request : TriggerRequest) (o : Option (List Effect → TriggerOutcome))
      (t : QueueTrigger S)
      → Quiet t (with_runtime setup request o t).1
  with_runtime-Quiet setup request none t = (refl, refl)
  with_runtime-Quiet setup request (some trigger_event) t =
      attempt_from-Quiet setup trigger_event request (attempts_of setup.config.max_retries) 0 none t

  pub trigger_agent_with_retry-Quiet :
      (setup : Setup S) (envelope : MessageEnvelope) (trace_id tenant_id : String)
      (t : QueueTrigger S)
      → Quiet t (trigger_agent_with_retry setup envelope trace_id tenant_id t).1
  unfolding trigger_agent_with_retry
  trigger_agent_with_retry-Quiet setup envelope trace_id tenant_id t =
      with_runtime-Quiet setup (request_of setup envelope trace_id tenant_id)
        setup.externals.trigger_event t
