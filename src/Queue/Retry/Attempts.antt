-- ===== src/Queue/Retry/Attempts.antt =====
-- owlclaw/triggers/queue/trigger.py: how often the retry loop calls the runtime, and when it succeeds.
use owlclaw.Base.{
  List, Option, String, [], ap, arith, false, inl, inr, none, refl, some, suc, true, zero, ℕ, ◌++◌,
  ◌+◌, ◌<◌, ◌∙◌, ◌∷◌, ◌≡◌, ◌≤◌, ◌⊎◌,
}
use owlclaw.Base.Int.{leb_ℤ, pos}
use owlclaw.Queue.Effects.{
  Delay, Disposition, Effect, Setup, TriggerOutcome, TriggerRequest, TriggerResult, settled, slept,
  trigger_raised, trigger_returned, triggered,
}
use owlclaw.Queue.Models.{MessageEnvelope, RawMessage}
use owlclaw.Queue.Retry.{
  Delivered, attempt_from, attempts_of, compute_backoff, delivered, failed, request_of,
  trigger_agent_with_retry, with_runtime,
}
use owlclaw.Queue.Runtime.{QueueTrigger, count_retry, log}

abbrev pub is_trigger : Effect → ℕ
is_trigger (triggered request) = 1
is_trigger _ = 0

-- The calls of `trigger_event` among the effects.
abbrev pub triggers : List Effect → ℕ
triggers [] = 0
triggers (effect ∷ effects) = is_trigger effect + triggers effects

abbrev pub settlement : Effect → List (RawMessage × Disposition)
settlement (settled raw d) = (raw, d) ∷ []
settlement _ = []

-- The adapter's calls on messages among the effects, the newest first.
abbrev pub settlements : List Effect → List (RawMessage × Disposition)
settlements [] = []
settlements (effect ∷ effects) = settlement effect ++ settlements effects

outcome-cases :
    (o : TriggerOutcome)
    → ((r : TriggerResult) × (o ≡ trigger_returned r))
      ⊎ ((error : String) × (o ≡ trigger_raised error))
outcome-cases (trigger_returned r) = inl (r, refl)
outcome-cases (trigger_raised error) = inr (error, refl)

-- A failure comes from the last round only.
abbrev pub FailsLate : ℕ → ℕ → Delivered → Type 0
FailsLate calls rounds (delivered r) = Unit
FailsLate calls rounds (failed error) = calls ≡ rounds

module _ {S : Type 0} where
  -- From `t` to `t'` the loop called the runtime `calls` times, each call but the first one behind a
  -- counted retry; it called no adapter and changed no other counter and no entry of the store.
  abbrev pub Tried : ℕ → QueueTrigger S → QueueTrigger S → Type 0
  Tried calls t t' =
      (triggers t'.effects ≡ calls + triggers t.effects)
      × (settlements t'.effects ≡ settlements t.effects)
      × (suc t'.metrics.retries_total ≡ calls + t.metrics.retries_total)
      × (t' ≡ record t {
        effects = t'.effects;
        metrics = record t.metrics { retries_total = t'.metrics.retries_total };
      })

  retried-Tried :
      (calls : ℕ) (request : TriggerRequest) (delay : Delay) (t t' : QueueTrigger S)
      → Tried calls (log (slept delay) (count_retry (log (triggered request) t))) t'
      → Tried (suc calls) t t'
  retried-Tried calls request delay t t' (called, settles, retries, frame) =
      (omega (arith, called), settles, omega (arith, retries), frame)

  module _ (setup : Setup S) (trigger_event : List Effect → TriggerOutcome)
      (request : TriggerRequest) where
    abbrev pub Ends : ℕ → QueueTrigger S → Delivered × QueueTrigger S → Type 0
    Ends rounds t (d, t') =
        (calls : ℕ) × (0 < calls) × (calls ≤ rounds) × FailsLate calls rounds d × Tried calls t t'

    one_call :
        (rounds : ℕ) (t : QueueTrigger S) (r : TriggerResult)
        → Ends (suc rounds) t (delivered r, log (triggered request) t)
    one_call rounds t r = (1, omega arith, omega arith, tt, (refl, refl, omega arith, refl))

    late :
        (calls rounds : ℕ) (d : Delivered)
        → FailsLate calls rounds d
        → FailsLate (suc calls) (suc rounds) d
    late calls rounds (delivered r) h = tt
    late calls rounds (failed error) h = ap suc h

    pub attempt_from-Ends :
        (max_retries rounds attempt : ℕ) (last_error : Option String) (t : QueueTrigger S)
        → setup.config.max_retries ≡ pos max_retries
        → attempt + rounds ≡ max_retries
        → Ends
            (suc rounds)
            t
            (attempt_from setup trigger_event request (suc rounds) attempt last_error t)
    unfolding attempt_from
    attempt_from-Ends max_retries zero attempt last_error t same sum =
        elim (outcome-cases (trigger_event (triggered request ∷ t.effects))) [
          | inl (r, returns) ↦ rw returns (one_call zero t r)
          | inr (error, raises) ↦
              let stop_now : leb_ℤ setup.config.max_retries (pos attempt) ≡ true =
                rw same (ground arith) in
              rw (raises, stop_now)
                (1, omega arith, omega arith, refl, (refl, refl, omega arith, refl))
        ]
    attempt_from-Ends max_retries (suc rounds) attempt last_error t same sum =
        elim (outcome-cases (trigger_event (triggered request ∷ t.effects))) [
          | inl (r, returns) ↦ rw returns (one_call (suc rounds) t r)
          | inr (error, raises) ↦
              let go_on : leb_ℤ setup.config.max_retries (pos attempt) ≡ false =
                rw same (ground arith) in
              let delay = compute_backoff setup.config attempt in
              let next = log (slept delay) (count_retry (log (triggered request) t)) in
              let (calls, some_calls, few, fails, tried) =
                attempt_from-Ends max_retries rounds (suc attempt) (some error) next same
                  (omega arith) in
              rw (raises, go_on)
                (
                  suc calls,
                  omega arith,
                  omega arith,
                  late calls (suc rounds)
                      (attempt_from setup trigger_event request (suc rounds) (suc attempt)
                        (some error) next).0
                      fails,
                  retried-Tried calls request delay t
                      (attempt_from setup trigger_event request (suc rounds) (suc attempt)
                        (some error) next).1
                      tried,
                )
        ]

    -- The runtime answers once it was called more than `j` times since `base` calls.
    pub attempt_from-delivers :
        (max_retries rounds attempt base j : ℕ) (last_error : Option String) (t : QueueTrigger S)
        → setup.config.max_retries ≡ pos max_retries
        → attempt + rounds ≡ max_retries
        → j ≤ max_retries
        → triggers t.effects ≡ base + attempt
        → ((history : List Effect)
            → base + j < triggers history
            → (r : TriggerResult) × (trigger_event history ≡ trigger_returned r))
        → (r : TriggerResult) × ((attempt_from setup trigger_event request
              (suc rounds)
              attempt
              last_error
              t).0
            ≡ delivered r)
    unfolding attempt_from
    attempt_from-delivers max_retries zero attempt base j last_error t same sum few here answers =
        let (r, returns) = answers (triggered request ∷ t.effects) (omega (arith, here)) in
        (r, rw returns refl)
    attempt_from-delivers max_retries (suc rounds) attempt base j last_error t same sum few here
          answers =
        elim (outcome-cases (trigger_event (triggered request ∷ t.effects))) [
          | inl (r, returns) ↦ (r, rw returns refl)
          | inr (error, raises) ↦
              let go_on : leb_ℤ setup.config.max_retries (pos attempt) ≡ false =
                rw same (ground arith) in
              let next =
                log (slept (compute_backoff setup.config attempt))
                  (count_retry (log (triggered request) t)) in
              let (r, e) =
                attempt_from-delivers max_retries rounds (suc attempt) base j (some error) next same
                  (omega arith) few (omega (arith, here)) answers in
              (r, rw (raises, go_on) e)
        ]

  loop_of :
      (setup : Setup S) (trigger_event : List Effect → TriggerOutcome) (max_retries : ℕ)
      (envelope : MessageEnvelope) (trace_id tenant_id : String) (t : QueueTrigger S)
      → setup.externals.trigger_event ≡ some trigger_event
      → setup.config.max_retries ≡ pos max_retries
      → trigger_agent_with_retry setup envelope trace_id tenant_id t
        ≡ attempt_from setup trigger_event
            (request_of setup envelope trace_id tenant_id)
            (suc max_retries)
            0
            none
            t
  unfolding trigger_agent_with_retry
  loop_of setup trigger_event max_retries envelope trace_id tenant_id t attached same =
      let request = request_of setup envelope trace_id tenant_id in
      ap (λ runtime. with_runtime setup request runtime t) attached
      ∙ ap (λ m. attempt_from setup trigger_event request (attempts_of m) 0 none t) same

  -- Where the runtime is given and `max_retries` is not negative, the retry loop calls it at least once
  -- and at most `max_retries` + 1 times, each call but the first behind a counted retry; it fails only
  -- behind the last of these calls, and it calls no adapter and changes nothing else.
  pub trigger_agent_with_retry-Ends :
      (setup : Setup S) (trigger_event : List Effect → TriggerOutcome) (max_retries : ℕ)
      (envelope : MessageEnvelope) (trace_id tenant_id : String) (t : QueueTrigger S)
      → setup.externals.trigger_event ≡ some trigger_event
      → setup.config.max_retries ≡ pos max_retries
      → Ends setup trigger_event
          (request_of setup envelope trace_id tenant_id)
          (suc max_retries)
          t
          (trigger_agent_with_retry setup envelope trace_id tenant_id t)
  trigger_agent_with_retry-Ends setup trigger_event max_retries envelope trace_id tenant_id t
        attached same =
      rw (loop_of setup trigger_event max_retries envelope trace_id tenant_id t attached same) (
        attempt_from-Ends setup trigger_event (request_of setup envelope trace_id tenant_id)
          max_retries max_retries 0 none t same (omega arith))

  -- A runtime that answers from its call number `j` + 1 on, with `j` at most `max_retries`, answers the
  -- retry loop, however it fails before.
  pub trigger_agent_with_retry-delivers :
      (setup : Setup S) (trigger_event : List Effect → TriggerOutcome) (max_retries j : ℕ)
      (envelope : MessageEnvelope) (trace_id tenant_id : String) (t : QueueTrigger S)
      → setup.externals.trigger_event ≡ some trigger_event
      → setup.config.max_retries ≡ pos max_retries
      → j ≤ max_retries
      → ((history : List Effect)
          → triggers t.effects + j < triggers history
          → (r : TriggerResult) × (trigger_event history ≡ trigger_returned r))
      → (r : TriggerResult) × ((trigger_agent_with_retry setup envelope trace_id tenant_id t).0
          ≡ delivered r)
  trigger_agent_with_retry-delivers setup trigger_event max_retries j envelope trace_id tenant_id t
        attached same few answers =
      rw (loop_of setup trigger_event max_retries envelope trace_id tenant_id t attached same) (
        attempt_from-delivers setup trigger_event (request_of setup envelope trace_id tenant_id)
          max_retries max_retries 0 (triggers t.effects) j none t same (omega arith) few
          (omega arith) answers)
