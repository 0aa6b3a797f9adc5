-- ===== src/Queue/Examples.antt =====
-- Runs of owlclaw/triggers/queue: a flaky runtime, a duplicate, a rejection and a forged tenant.
use owlclaw.Base.{
  List, [], arith, inr, lower, lt→ltb, member, none, refl, string_eq, string_pair_eq, strip, ◌+◌,
  ◌<◌, ◌∷◌, ◌≡◌, ◌≢◌,
}
use owlclaw.Base.Dict.{get}
use owlclaw.Base.Int.{pos}
use owlclaw.Base.Value.{Value, dict, end, field, null, str}
use owlclaw.Queue.Config.{validate_config}
use owlclaw.Queue.Decisions.{error_disposition, rejection_disposition}
use owlclaw.Queue.Effects.{Disposition, Effect, TriggerResult, no_result, trigger_returned}
use owlclaw.Queue.Idempotency.Refinement.{ask, fetch, run_book, run_store, run_store-new, write}
use owlclaw.Queue.Processing.{ProcessStatus, consume_message, process_message, processed, result_of}
use owlclaw.Queue.Processing.Counts.{IsBalanced}
use owlclaw.Queue.Processing.Dedup.Duplicates.{process_message-once}
use owlclaw.Queue.Processing.Messages.{Counted, consume_message-Counted, process_message-settles}
use owlclaw.Queue.Processing.Rejection.{process_message-fails_closed}
use owlclaw.Queue.Processing.Settlement.{IsFitting, Says, result_status}
use owlclaw.Queue.Redaction.{redact_value}
use owlclaw.Queue.Redaction.Secrecy.{IsSecret, redact_value-IsSecret}
use owlclaw.Queue.Retry.{delivered, request_of, trigger_agent_with_retry}
use owlclaw.Queue.Retry.Attempts.{
  Ends, settlements, trigger_agent_with_retry-Ends, trigger_agent_with_retry-delivers, triggers,
}
use owlclaw.Queue.Runtime.{raised, resume_trigger}
use owlclaw.Queue.Samples.{
  acme_differs, again, config, crashed, envelope, flaky, forged, guarded, idle, patterns, plain,
  plain-Reaches, plain_asked, plain_parsed, plain_processed, plain_tenant, secrets, setup,
  setup-IsRemembering, signed, signed_tenant, worker,
}
use owlclaw.Queue.Tenant.Trust.{MaySet, resolve_tenant_id-MaySet}
use owlclaw.Queue.Worker.{arrived, resume_called, run_events, stop_called, waiting, woke}
use owlclaw.Queue.Worker.Pausing.{HandlesNothing, resume-handles, run_events-HandlesNothing}
use owlclaw.Queue.Worker.Safety.{run_events-IsBalanced}

no_errors : validate_config config ≡ []
unfolding validate_config strip member
no_errors = refl

process_message-once_example :
    let t' =
      (run_events setup []
        (record { phase = waiting; trigger = (process_message setup plain idle).1 })).trigger in
    triggers (process_message setup again t').1.effects ≡ triggers t'.effects
unfolding run_events
process_message-once_example =
    process_message-once setup setup-IsRemembering plain again (envelope plain) (envelope again)
      "default" (result_of plain processed none) idle []
      (record { phase = waiting; trigger = (process_message setup plain idle).1 }) plain_parsed
      plain_processed refl refl plain_parsed refl plain_tenant plain_asked

process_message-settles_example :
    let (reply, t') = process_message setup plain idle in
    (status : ProcessStatus) × (d : Disposition) × (settlements t'.effects
      ≡ (plain, d) ∷ settlements idle.effects)
    × IsFitting config status d
    × Says result_status status reply
process_message-settles_example = process_message-settles setup plain idle plain-Reaches

consume_message-Counted_example :
    Counted (process_message setup plain idle).0 idle (consume_message setup plain idle)
consume_message-Counted_example = consume_message-Counted setup plain idle

trigger_agent_with_retry-Ends_example :
    Ends setup flaky
      (request_of setup (envelope plain) "queue-m1" "default")
      3
      idle
      (trigger_agent_with_retry setup (envelope plain) "queue-m1" "default" idle)
trigger_agent_with_retry-Ends_example =
    trigger_agent_with_retry-Ends setup flaky 2 (envelope plain) "queue-m1" "default" idle refl refl

flaky_answers :
    (history : List Effect)
    → triggers idle.effects + 1 < triggers history
    → (answer : TriggerResult) × (flaky history ≡ trigger_returned answer)
flaky_answers history many = (no_result, rw (lt→ltb 1 (triggers history) (omega arith)) refl)

trigger_agent_with_retry-delivers_example :
    (answer : TriggerResult) × ((trigger_agent_with_retry setup
        (envelope plain)
        "queue-m1"
        "default"
        idle).0
      ≡ delivered answer)
trigger_agent_with_retry-delivers_example =
    trigger_agent_with_retry-delivers setup flaky 2 1 (envelope plain) "queue-m1" "default" idle
      refl refl (omega arith) flaky_answers

run_store-new_example :
    run_store [] ((1, write "k" null (pos 2)) ∷ (2, ask "k") ∷ (2000001, fetch "k") ∷ [])
    ≡ run_book
        (λ key. none)
        ((1, write "k" null (pos 2)) ∷ (2, ask "k") ∷ (2000001, fetch "k") ∷ [])
run_store-new_example =
    run_store-new ((1, write "k" null (pos 2)) ∷ (2, ask "k") ∷ (2000001, fetch "k") ∷ []) 0
      (omega arith, (omega arith, (omega arith, tt)))

resolve_tenant_id-MaySet_example : MaySet secrets config (envelope signed) "acme"
resolve_tenant_id-MaySet_example =
    resolve_tenant_id-MaySet secrets config (envelope signed) "acme" signed_tenant acme_differs

run_events-IsBalanced_example :
    IsBalanced (run_events setup (resume_called ∷ arrived plain ∷ []) worker).trigger
run_events-IsBalanced_example =
    run_events-IsBalanced setup (resume_called ∷ arrived plain ∷ []) worker (refl, refl, refl, refl)

run_events-HandlesNothing_example :
    HandlesNothing idle (run_events setup (arrived plain ∷ woke ∷ stop_called ∷ []) worker).trigger
run_events-HandlesNothing_example =
    run_events-HandlesNothing setup (arrived plain ∷ woke ∷ stop_called ∷ []) worker
      (refl, (refl, (refl, tt))) (inr refl)

resume-handles_example :
    run_events setup (arrived plain ∷ woke ∷ woke ∷ resume_called ∷ woke ∷ []) worker
    ≡ record { phase = waiting; trigger = consume_message setup plain (resume_trigger idle) }
resume-handles_example = resume-handles setup 2 plain idle refl refl

process_message-fails_closed_example :
    (triggers (process_message guarded plain idle).1.effects ≡ triggers idle.effects)
    × (settlements (process_message guarded plain idle).1.effects
        ≡ (plain, rejection_disposition "requeue" "governance_unavailable")
          ∷ settlements idle.effects)
process_message-fails_closed_example =
    process_message-fails_closed guarded plain (envelope plain) "default" crashed idle plain_parsed
      plain_tenant refl (λ history. refl) refl

abbrev login : Value
login = dict (field "user" (str "ann") (field "API_Token" (str "t0p") end))

redact_value-IsSecret_example : IsSecret (redact_value patterns login)
redact_value-IsSecret_example = redact_value-IsSecret patterns login

forged_unsettled : process_message setup forged idle ≡ (raised, idle)
unfolding process_message strip lower get
forged_unsettled = refl

unknown_policy : rejection_disposition "drop" "late" ≢ error_disposition "drop" "late"
unfolding rejection_disposition error_disposition
unknown_policy e = absurd (cc)
