-- ===== src/Queue/Processing/Messages.antt =====
-- owlclaw/triggers/queue/trigger.py: what becomes of a message, up to what `_consume_loop` counts.
use owlclaw.Base.{
  Bool, Option-cases, String, ap, arith, false, if◌then◌else◌, inl, inr, none, refl, some, suc,
  true, ◌+◌, ◌<◌, ◌∷◌, ◌≡◌, ◌≤◌,
}
use owlclaw.Queue.Effects.{Disposition, Setup, dead_lettered, settled}
use owlclaw.Queue.Models.{
  MessageEnvelope, Parsed, RawMessage, from_raw_message, parse_crashed, parse_failed, parsed_as,
}
use owlclaw.Queue.Processing.{
  ProcessResult, ProcessStatus, consume_message, count_raised, deduplicated, finish_message,
  governance_rejected, parse_error, process_envelope, process_message, processed, processing_error,
  reply_with, result_of, trace_id_of, with_parsed,
}
use owlclaw.Queue.Processing.Counts.{
  Accounted, IsBalanced, counted, finish_message-Accounted, raised-Accounted, returned-Accounted,
  total,
}
use owlclaw.Queue.Processing.Settlement.{IsFitting, Says, process_envelope-Handled, result_status}
use owlclaw.Queue.Redaction.{redact_text}
use owlclaw.Queue.Retry.Attempts.{settlements}
use owlclaw.Queue.Runtime.{QueueTrigger, Reply, count_failure, create_parser, log, raised, returned}
use owlclaw.Queue.Tenant.{resolve_tenant_id}

-- The parser gives an envelope that has a tenant, or a `ParseError`.
abbrev pub Reaches : {S : Type 0} → Setup S → Parsed MessageEnvelope → Type 0
Reaches setup (parsed_as envelope) =
    (tenant_id : String) × (resolve_tenant_id setup.externals.secrets setup.config envelope
      ≡ some tenant_id)
Reaches setup (parse_failed error) = Unit
Reaches setup parse_crashed = true ≡ false

abbrev pub parse_of : {S : Type 0} → Setup S → RawMessage → Parsed MessageEnvelope
parse_of setup raw =
    from_raw_message setup.externals.decoders raw setup.config.queue_name
      (create_parser setup.config.parser_type)

counted-le : (status : ProcessStatus) → counted status ≤ 1
counted-le processed = omega arith
counted-le deduplicated = omega arith
counted-le governance_rejected = omega arith
counted-le processing_error = omega arith
counted-le parse_error = omega arith

module _ {S : Type 0} where
  parse_error-Accounted :
      (setup : Setup S) (raw : RawMessage) (error : String) (t : QueueTrigger S)
      → Accounted setup raw t
          (with_parsed setup raw (setup.externals.perf_counter t.effects) (parse_failed error) t)
  parse_error-Accounted setup raw error t =
      go (setup.externals.adapter_ok (settled raw (dead_lettered safe_error) ∷ t.effects))
    where
      safe_error : String
      safe_error = redact_text setup.externals.patterns error

      t' : QueueTrigger S
      t' = log (settled raw (dead_lettered safe_error)) (count_failure t)

      go :
          (b : Bool)
          → Accounted setup raw t (
            reply_with
                (result_of raw parse_error (some safe_error))
                (if b then returned tt else raised),
            t',
          )
      go true =
          returned-Accounted setup raw parse_error (dead_lettered safe_error) (some safe_error) t t'
            refl refl (safe_error, refl) refl
      go false =
          raised-Accounted setup raw parse_error (dead_lettered safe_error) t t' refl
            (safe_error, refl) refl

  with_parsed-Accounted :
      (setup : Setup S) (raw : RawMessage) (parsed : Parsed MessageEnvelope) (t : QueueTrigger S)
      → Reaches setup parsed
      → Accounted setup raw t
          (with_parsed setup raw (setup.externals.perf_counter t.effects) parsed t)
  with_parsed-Accounted setup raw (parsed_as envelope) t (tenant_id, resolved) =
      let run = process_envelope setup raw envelope (trace_id_of raw) t in
      let (status, d, settles, fit, frames, says) =
        process_envelope-Handled setup raw envelope (trace_id_of raw) tenant_id t resolved in
      finish_message-Accounted setup raw envelope (setup.externals.perf_counter t.effects) status d
        run.0 t run.1 settles fit frames says
  with_parsed-Accounted setup raw (parse_failed error) t h = parse_error-Accounted setup raw error t
  with_parsed-Accounted setup raw parse_crashed t h = absurd (cc)

  pub process_message-Accounted :
      (setup : Setup S) (raw : RawMessage) (t : QueueTrigger S)
      → Reaches setup (parse_of setup raw)
      → Accounted setup raw t (process_message setup raw t)
  unfolding process_message
  process_message-Accounted setup raw t h = with_parsed-Accounted setup raw (parse_of setup raw) t h

  -- A message whose body the parser reads or refuses with a `ParseError`, and whose envelope has a
  -- tenant, gets one call of the adapter, neither none nor two, whatever the store, the governance
  -- layer, the runtime and the adapter do: an ack when it is processed or a duplicate, the dead-letter
  -- queue behind a `ParseError`, and what `ack_policy` says behind a rejection or an error.
  pub process_message-settles :
      (setup : Setup S) (raw : RawMessage) (t : QueueTrigger S)
      → Reaches setup (parse_of setup raw)
      → let (reply, t') = process_message setup raw t in
        (status : ProcessStatus) × (d : Disposition) × (settlements t'.effects
          ≡ (raw, d) ∷ settlements t.effects)
        × IsFitting setup.config status d
        × Says result_status status reply
  process_message-settles setup raw t h =
      let (status, d, settles, fit, says, _, _) = process_message-Accounted setup raw t h in
      (status, d, settles, fit, says)

  abbrev pub Once : Reply ProcessResult → QueueTrigger S → QueueTrigger S → Type 0
  Once (returned result) t t' = total t' ≡ suc (total t)
  Once raised t t' = Unit

  abbrev pub Counted : Reply ProcessResult → QueueTrigger S → QueueTrigger S → Type 0
  Counted reply t t' =
      (IsBalanced t → IsBalanced t')
      × (total t < total t')
      × (total t' ≤ total t + 2)
      × Once reply t t'

  count_failure-Counted : (t : QueueTrigger S) → Counted raised t (count_failure t)
  count_failure-Counted t = (λ h. (h.0, ap suc h.1, h.2, h.3), omega arith, omega arith, tt)

  Accounted-Counted :
      (setup : Setup S) (raw : RawMessage) (reply : Reply ProcessResult) (t t' : QueueTrigger S)
      → Accounted setup raw t (reply, t')
      → Counted reply t (count_raised reply t')
  Accounted-Counted setup raw (returned result) t t' (status, d, settles, fit, says, tally, keeps) =
      (keeps, omega (arith, tally), omega (arith, tally), tally)
  Accounted-Counted setup raw raised t t' (status, d, settles, fit, says, tally, keeps) = (
    λ h. let (a, b, c, e) = keeps h in (a, ap suc b, c, e),
    omega (arith, tally),
    omega (arith, tally, counted-le status),
    tt,
  )

  envelope-Counted :
      (setup : Setup S) (raw : RawMessage) (envelope : MessageEnvelope) (t : QueueTrigger S)
      → let (reply, t') =
          with_parsed setup raw (setup.externals.perf_counter t.effects) (parsed_as envelope) t in
        Counted reply t (count_raised reply t')
  unfolding process_envelope finish_message
  envelope-Counted setup raw envelope t =
      let tenant = resolve_tenant_id setup.externals.secrets setup.config envelope in
      elim (Option-cases tenant) [
        | inl raises ↦ rw raises (count_failure-Counted t)
        | inr (tenant_id, resolved) ↦
            let run =
              with_parsed setup raw (setup.externals.perf_counter t.effects) (parsed_as envelope)
                t in
            Accounted-Counted setup raw run.0 t run.1
              (with_parsed-Accounted setup raw (parsed_as envelope) t (tenant_id, resolved))
      ]

  with_parsed-Counted :
      (setup : Setup S) (raw : RawMessage) (parsed : Parsed MessageEnvelope) (t : QueueTrigger S)
      → let (reply, t') = with_parsed setup raw (setup.externals.perf_counter t.effects) parsed t in
        Counted reply t (count_raised reply t')
  with_parsed-Counted setup raw (parsed_as envelope) t = envelope-Counted setup raw envelope t
  with_parsed-Counted setup raw (parse_failed error) t =
      let run =
        with_parsed setup raw (setup.externals.perf_counter t.effects) (parse_failed error) t in
      Accounted-Counted setup raw run.0 t run.1 (parse_error-Accounted setup raw error t)
  with_parsed-Counted setup raw parse_crashed t = count_failure-Counted t

  -- Every message that the loop takes, whatever the code outside does, is counted: once where
  -- `_process_message` returns, and once or twice where it raises; the trigger's own counters and those
  -- of its metrics stay the same.
  pub consume_message-Counted :
      (setup : Setup S) (raw : RawMessage) (t : QueueTrigger S)
      → Counted (process_message setup raw t).0 t (consume_message setup raw t)
  unfolding consume_message process_message
  consume_message-Counted setup raw t = with_parsed-Counted setup raw (parse_of setup raw) t

  -- Where comparing the signature of the tenant's header raises, `_process_message` raises before any
  -- call of the adapter, the governance layer or the runtime, and the trigger is as it was.
  pub process_message-tenant_raises :
      (setup : Setup S) (raw : RawMessage) (envelope : MessageEnvelope) (t : QueueTrigger S)
      → parse_of setup raw ≡ parsed_as envelope
      → resolve_tenant_id setup.externals.secrets setup.config envelope ≡ none
      → process_message setup raw t ≡ (raised, t)
  unfolding process_message process_envelope finish_message
  process_message-tenant_raises setup raw envelope t parsed raises = rw parsed (rw raises refl)
