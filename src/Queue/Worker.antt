-- ===== src/Queue/Worker.antt =====
-- owlclaw/triggers/queue/trigger.py: `_consume_loop` of one worker among the calls that control the
-- trigger, as steps. A message is processed in one step.
pub mod Safety
pub mod Pausing
use owlclaw.Base.{Bool, List, [], false, true, ◌∷◌}
use owlclaw.Queue.Effects.{Setup}
use owlclaw.Queue.Models.{RawMessage}
use owlclaw.Queue.Processing.{consume_message}
use owlclaw.Queue.Runtime.{
  QueueTrigger, Reply, count_failure, pause_trigger, raised, resume_trigger, returned, start, stop,
}

-- Where the loop stands: at the adapter, at the sleep with a message in hand, or behind its end.
pub data Phase : Type 0 where
  waiting : Phase
  holding : RawMessage → Phase
  ended : Phase

pub record Worker (S : Type 0) : Type 0 where
  pub phase : Phase
  pub trigger : QueueTrigger S

-- A call from outside, a message or the end of the adapter's stream, its exception, or the end of
-- one sleep.
pub data Event : Type 0 where
  start_called stop_called pause_called resume_called : Event
  arrived : RawMessage → Event
  stream_closed stream_failed woke : Event

-- `start` makes a worker that waits for its first message; one that has not ended yet goes on.
abbrev pub renewed : Phase → Phase
renewed ended = waiting
renewed phase = phase

module _ {S : Type 0} where
  abbrev pub only_trigger : Worker S → QueueTrigger S → Worker S
  only_trigger w t = record w { trigger = t }

  -- The loop's body from the first test on, for a message in hand.
  abbrev pub proceed_if : Bool → Bool → Setup S → RawMessage → QueueTrigger S → Worker S
  proceed_if false paused setup raw t = record { phase = ended; trigger = t }
  proceed_if true true setup raw t = record { phase = holding raw; trigger = t }
  proceed_if true false setup raw t = record {
    phase = waiting;
    trigger = consume_message setup raw t;
  }

  unfoldable pub proceed : Setup S → RawMessage → QueueTrigger S → Worker S
  unfolding consume_message
  proceed setup raw t = proceed_if t.running t.paused setup raw t

  abbrev pub restarted : Reply Unit × QueueTrigger S → Worker S → Worker S
  restarted (returned _, t) w = record { phase = renewed w.phase; trigger = t }
  restarted (raised, t) w = only_trigger w t

  abbrev pub on_arrival : Setup S → RawMessage → Phase → Worker S → Worker S
  on_arrival setup raw waiting w = proceed setup raw w.trigger
  on_arrival setup raw (holding other_raw) w = w
  on_arrival setup raw ended w = w

  abbrev pub on_wake : Setup S → Phase → Worker S → Worker S
  on_wake setup waiting w = w
  on_wake setup (holding raw) w = proceed setup raw w.trigger
  on_wake setup ended w = w

  abbrev pub failed_if : Bool → QueueTrigger S → QueueTrigger S
  failed_if true t = count_failure t
  failed_if false t = t

  abbrev pub on_end : Bool → Phase → Worker S → Worker S
  on_end crashed waiting w = record { phase = ended; trigger = failed_if crashed w.trigger }
  on_end crashed (holding other_raw) w = w
  on_end crashed ended w = w

  -- A step; an event that the loop is not waiting for leaves it as it is.
  unfoldable pub step : Setup S → Event → Worker S → Worker S
  unfolding proceed start stop pause_trigger resume_trigger
  step setup start_called w = restarted (start setup w.trigger) w
  step setup stop_called w = only_trigger w (stop setup w.trigger).1
  step setup pause_called w = only_trigger w (pause_trigger w.trigger)
  step setup resume_called w = only_trigger w (resume_trigger w.trigger)
  step setup (arrived raw) w = on_arrival setup raw w.phase w
  step setup stream_closed w = on_end false w.phase w
  step setup stream_failed w = on_end true w.phase w
  step setup woke w = on_wake setup w.phase w

  unfoldable pub run_events : Setup S → List Event → Worker S → Worker S
  unfolding step
  run_events setup [] w = w
  run_events setup (event ∷ events) w = run_events setup events (step setup event w)
