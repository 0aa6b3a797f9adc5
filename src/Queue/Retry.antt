-- ===== src/Queue/Retry.antt =====
-- owlclaw/triggers/queue/trigger.py: `_trigger_agent_with_retry`.
pub mod Attempts
use owlclaw.Base.{List, Option, String, if◌then◌else◌, none, some, suc, zero, ℕ, ◌*◌}
use owlclaw.Base.Int.{leb_ℤ, negsuc, pos, pos_part, ℤ}
use owlclaw.Queue.Config.{QueueTriggerConfig}
use owlclaw.Queue.Effects.{
  Delay, Effect, Setup, TriggerOutcome, TriggerRequest, TriggerResult, no_result, slept,
  trigger_raised, trigger_returned, triggered,
}
use owlclaw.Queue.Models.{MessageEnvelope}
use owlclaw.Queue.Runtime.{QueueTrigger, count_retry, log}
use owlclaw.Queue.Tenant.{or_missing, or_text}

-- What the retry loop does in the end.
pub data Delivered : Type 0 where
  delivered : TriggerResult → Delivered
  failed : String → Delivered

-- `range(self.config.max_retries + 1)`
abbrev pub attempts_of : ℤ → ℕ
attempts_of (pos n) = suc n
attempts_of (negsuc n) = 0

unfoldable pub power : ℕ → ℕ → ℕ
power base zero = 1
power base (suc n) = base * power base n

-- `_compute_backoff_seconds`, without rounding, for a base and a multiplier that are not negative
unfoldable pub compute_backoff : QueueTriggerConfig → ℕ → Delay
unfolding power
compute_backoff c attempt = record {
  numerator = pos_part c.retry_backoff_base * power (pos_part c.retry_backoff_multiplier) attempt;
  places = suc attempt;
}

abbrev raise_last : Option String → Delivered
raise_last none = delivered no_result
raise_last (some error) = failed error

abbrev pub event_name_of : MessageEnvelope → String
event_name_of envelope = or_text (or_missing envelope.event_name) "queue_message"

module _ {S : Type 0} where
  -- What follows one attempt: `retry` is what the loop does behind its sleep.
  abbrev pub after_attempt :
      ℤ
      → ℕ
      → TriggerOutcome
      → QueueTrigger S
      → (String → Delivered × QueueTrigger S)
      → Delivered × QueueTrigger S
  after_attempt max_retries attempt (trigger_returned answer) t retry = (delivered answer, t)
  after_attempt max_retries attempt (trigger_raised error) t retry =
      if leb_ℤ max_retries (pos attempt) then (failed error, t) else retry error

  -- The loop, with the number of rounds left and the last error.
  unfoldable pub attempt_from :
      Setup S
      → (List Effect → TriggerOutcome)
      → TriggerRequest
      → ℕ
      → ℕ
      → Option String
      → QueueTrigger S
      → Delivered × QueueTrigger S
  unfolding compute_backoff
  attempt_from setup trigger_event request zero attempt last_error t = (raise_last last_error, t)
  attempt_from setup trigger_event request (suc rounds) attempt last_error t =
      let t' = log (triggered request) t in
      after_attempt setup.config.max_retries attempt (trigger_event t'.effects) t' (λ error.
        attempt_from setup trigger_event request rounds (suc attempt) (some error)
          (log (slept (compute_backoff setup.config attempt)) (count_retry t')))

  abbrev pub request_of : Setup S → MessageEnvelope → String → String → TriggerRequest
  request_of setup envelope trace_id tenant_id = record {
    event_name = event_name_of envelope;
    message = envelope.payload;
    headers = envelope.headers;
    source = envelope.source;
    message_id = envelope.message_id;
    received_at = envelope.received_at;
    trace_id = trace_id;
    focus = setup.config.focus;
    tenant_id = tenant_id;
  }

  abbrev pub with_runtime :
      Setup S
      → TriggerRequest
      → Option (List Effect → TriggerOutcome)
      → QueueTrigger S
      → Delivered × QueueTrigger S
  with_runtime setup request none t = (delivered no_result, t)
  with_runtime setup request (some trigger_event) t =
      attempt_from setup trigger_event request (attempts_of setup.config.max_retries) 0 none t

  -- `_trigger_agent_with_retry`
  unfoldable pub trigger_agent_with_retry :
      Setup S → MessageEnvelope → String → String → QueueTrigger S → Delivered × QueueTrigger S
  trigger_agent_with_retry setup envelope trace_id tenant_id t =
      with_runtime setup (request_of setup envelope trace_id tenant_id)
        setup.externals.trigger_event t
