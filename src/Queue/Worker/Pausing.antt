-- ===== src/Queue/Worker/Pausing.antt =====
-- owlclaw/triggers/queue/trigger.py: `_consume_loop` behind `pause`, `resume` and `stop`.
use owlclaw.Base.{
  All, Bool, List, [], ap, arith, false, inl, inr, refl, suc, true, zero, ℕ, ◌∙◌, ◌∷◌, ◌≡◌, ◌⊎◌,
}
use owlclaw.Queue.Effects.{Setup, disconnected}
use owlclaw.Queue.Models.{RawMessage}
use owlclaw.Queue.Processing.{consume_message}
use owlclaw.Queue.Retry.Attempts.{settlements, triggers}
use owlclaw.Queue.Runtime.{QueueTrigger, log, pause_trigger, resume_trigger, stop, stop_workers}
use owlclaw.Queue.Worker.{
  Event, Phase, Worker, arrived, ended, holding, on_arrival, on_end, on_wake, pause_called, proceed,
  proceed_if, resume_called, run_events, start_called, step, stop_called, stream_closed,
  stream_failed, waiting, woke,
}

-- The calls that can make a paused or stopped trigger go on.
abbrev pub wakes : Event → Bool
wakes start_called = true
wakes resume_called = true
wakes _ = false

abbrev pub IsIdle : {S : Type 0} → QueueTrigger S → Type 0
IsIdle t = (t.running ≡ false) ⊎ (t.paused ≡ true)

-- No call of the runtime and none of the adapter on a message.
abbrev pub HandlesNothing : {S : Type 0} → QueueTrigger S → QueueTrigger S → Type 0
HandlesNothing t t' =
    (triggers t'.effects ≡ triggers t.effects) × (settlements t'.effects ≡ settlements t.effects)

abbrev pub repeat_woke : ℕ → List Event → List Event
repeat_woke zero events = events
repeat_woke (suc n) events = woke ∷ repeat_woke n events

module _ {S : Type 0} (setup : Setup S) where
  abbrev Rests : QueueTrigger S → QueueTrigger S → Type 0
  Rests t t' = IsIdle t' × HandlesNothing t t'

  proceed_if-Rests :
      (running paused : Bool) (raw : RawMessage) (t : QueueTrigger S)
      → (running ≡ false) ⊎ (paused ≡ true)
      → IsIdle t
      → Rests t (proceed_if running paused setup raw t).trigger
  proceed_if-Rests false paused raw t which h = (h, (refl, refl))
  proceed_if-Rests true true raw t which h = (h, (refl, refl))
  proceed_if-Rests true false raw t (inl e) h = absurd (cc)
  proceed_if-Rests true false raw t (inr e) h = absurd (cc)

  stop_workers-Rests :
      (b : Bool) (t : QueueTrigger S)
      → Rests t (stop_workers b (record (log disconnected t) { running = false; paused = false })).1
  stop_workers-Rests true t = (inl refl, (omega arith, refl))
  stop_workers-Rests false t = (inl refl, (omega arith, refl))

  stop-Rests : (t : QueueTrigger S) → Rests t (stop setup t).1
  unfolding stop
  stop-Rests t = stop_workers-Rests (setup.externals.adapter_ok (disconnected ∷ t.effects)) t

  on_arrival-Rests :
      (raw : RawMessage) (phase : Phase) (w : Worker S)
      → IsIdle w.trigger
      → Rests w.trigger (on_arrival setup raw phase w).trigger
  unfolding proceed
  on_arrival-Rests raw waiting w h =
      proceed_if-Rests w.trigger.running w.trigger.paused raw w.trigger h h
  on_arrival-Rests raw (holding other_raw) w h = (h, (refl, refl))
  on_arrival-Rests raw ended w h = (h, (refl, refl))

  on_wake-Rests :
      (phase : Phase) (w : Worker S)
      → IsIdle w.trigger
      → Rests w.trigger (on_wake setup phase w).trigger
  unfolding proceed
  on_wake-Rests waiting w h = (h, (refl, refl))
  on_wake-Rests (holding raw) w h =
      proceed_if-Rests w.trigger.running w.trigger.paused raw w.trigger h h
  on_wake-Rests ended w h = (h, (refl, refl))

  on_end-Rests :
      (crashed : Bool) (phase : Phase) (w : Worker S)
      → IsIdle w.trigger
      → Rests w.trigger (on_end crashed phase w).trigger
  on_end-Rests true waiting w h = (h, (refl, refl))
  on_end-Rests false waiting w h = (h, (refl, refl))
  on_end-Rests crashed (holding raw) w h = (h, (refl, refl))
  on_end-Rests crashed ended w h = (h, (refl, refl))

  pause-Rests : (t : QueueTrigger S) → IsIdle t → Rests t (pause_trigger t)
  unfolding pause_trigger
  pause-Rests t h = (inr refl, (refl, refl))

  step-Rests :
      (event : Event) (w : Worker S)
      → wakes event ≡ false
      → IsIdle w.trigger
      → Rests w.trigger (step setup event w).trigger
  unfolding step
  step-Rests start_called w quiet h = absurd (cc)
  step-Rests resume_called w quiet h = absurd (cc)
  step-Rests stop_called w quiet h = stop-Rests w.trigger
  step-Rests pause_called w quiet h = pause-Rests w.trigger h
  step-Rests (arrived raw) w quiet h = on_arrival-Rests raw w.phase w h
  step-Rests stream_closed w quiet h = on_end-Rests false w.phase w h
  step-Rests stream_failed w quiet h = on_end-Rests true w.phase w h
  step-Rests woke w quiet h = on_wake-Rests w.phase w h

  -- Where a trigger is paused or does not run and no message is in flight, no sequence of events
  -- without a call of `start` or `resume` calls the runtime or the adapter on a message.
  pub run_events-HandlesNothing :
      (events : List Event) (w : Worker S)
      → All (λ event. wakes event ≡ false) events
      → IsIdle w.trigger
      → HandlesNothing w.trigger (run_events setup events w).trigger
  unfolding run_events
  run_events-HandlesNothing [] w quiet h = (refl, refl)
  run_events-HandlesNothing (event ∷ events) w quiet h =
      let (idle, (called, settles)) = step-Rests event w quiet.0 h in
      let rest = run_events-HandlesNothing events (step setup event w) quiet.1 idle in
      (rest.0 ∙ called, rest.1 ∙ settles)

  sleeps_on :
      (raw : RawMessage) (t : QueueTrigger S)
      → t.running ≡ true
      → t.paused ≡ true
      → step setup woke (record { phase = holding raw; trigger = t })
        ≡ record { phase = holding raw; trigger = t }
  unfolding step proceed
  sleeps_on raw t runs sleeping =
      ap (λ b. proceed_if b t.paused setup raw t) runs
      ∙ ap (λ b. proceed_if true b setup raw t) sleeping

  takes_up :
      (raw : RawMessage) (t : QueueTrigger S)
      → t.running ≡ true
      → t.paused ≡ false
      → step setup woke (record { phase = holding raw; trigger = t })
        ≡ record { phase = waiting; trigger = consume_message setup raw t }
  unfolding step proceed
  takes_up raw t runs awake =
      ap (λ b. proceed_if b t.paused setup raw t) runs
      ∙ ap (λ b. proceed_if true b setup raw t) awake

  sleeps_through :
      (n : ℕ) (events : List Event) (raw : RawMessage) (t : QueueTrigger S)
      → t.running ≡ true
      → t.paused ≡ true
      → run_events setup (repeat_woke n events) (record { phase = holding raw; trigger = t })
        ≡ run_events setup events (record { phase = holding raw; trigger = t })
  unfolding run_events
  sleeps_through zero events raw t runs sleeping = refl
  sleeps_through (suc n) events raw t runs sleeping =
      ap (λ w. run_events setup (repeat_woke n events) w) (sleeps_on raw t runs sleeping)
      ∙ sleeps_through n events raw t runs sleeping

  holds_on :
      (raw : RawMessage) (t : QueueTrigger S)
      → t.running ≡ true
      → t.paused ≡ true
      → step setup (arrived raw) (record { phase = waiting; trigger = t })
        ≡ record { phase = holding raw; trigger = t }
  unfolding step proceed
  holds_on raw t runs sleeping =
      ap (λ b. proceed_if b t.paused setup raw t) runs
      ∙ ap (λ b. proceed_if true b setup raw t) sleeping

  resumed :
      (raw : RawMessage) (t : QueueTrigger S)
      → t.running ≡ true
      → run_events setup (resume_called ∷ woke ∷ []) (record { phase = holding raw; trigger = t })
        ≡ record { phase = waiting; trigger = consume_message setup raw (resume_trigger t) }
  unfolding run_events step resume_trigger
  resumed raw t runs = takes_up raw (resume_trigger t) runs refl

  -- A message that arrives while a running trigger is paused is handled by the first wake-up behind
  -- `resume`, however often the loop woke up before.
  pub resume-handles :
      (n : ℕ) (raw : RawMessage) (t : QueueTrigger S)
      → t.running ≡ true
      → t.paused ≡ true
      → run_events setup
          (arrived raw ∷ repeat_woke n (resume_called ∷ woke ∷ []))
          (record { phase = waiting; trigger = t })
        ≡ record { phase = waiting; trigger = consume_message setup raw (resume_trigger t) }
  unfolding run_events
  resume-handles n raw t runs sleeping =
      let events = resume_called ∷ woke ∷ [] in
      ap (λ w. run_events setup (repeat_woke n events) w) (holds_on raw t runs sleeping)
      ∙ sleeps_through n events raw t runs sleeping
      ∙ resumed raw t runs
