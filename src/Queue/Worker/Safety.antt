-- ===== src/Queue/Worker/Safety.antt =====
-- owlclaw/triggers/queue/trigger.py: what every sequence of events keeps.
use owlclaw.Base.{Bool, List, [], ap, false, inl, inr, refl, suc, true, ℕ, ◌∷◌, ◌≡◌, ◌⊎◌}
use owlclaw.Base.Int.{pos_part}
use owlclaw.Queue.Effects.{Effect, Setup, connected, disconnected}
use owlclaw.Queue.Models.{RawMessage}
use owlclaw.Queue.Processing.{consume_message}
use owlclaw.Queue.Processing.Counts.{IsBalanced}
use owlclaw.Queue.Processing.Messages.{consume_message-Counted}
use owlclaw.Queue.Runtime.{
  QueueTrigger, Reply, count_failure, log, pause_trigger, raised, resume_trigger, returned, start,
  start_if, start_workers, stop, stop_workers,
}
use owlclaw.Queue.Worker.{
  Event, Phase, Worker, arrived, ended, holding, on_arrival, on_end, on_wake, pause_called, proceed,
  proceed_if, restarted, resume_called, run_events, start_called, step, stop_called, stream_closed,
  stream_failed, waiting, woke,
}

module _ {S : Type 0} (setup : Setup S) where
  -- A property that the calls that control the trigger, a counted failure and a message all keep is
  -- kept by every sequence of events.
  module _ (P : QueueTrigger S → Type 0)
      (keeps_controls : (t : QueueTrigger S) (effect : Effect) (running paused : Bool) (workers : ℕ)
        → (effect ≡ connected) ⊎ (effect ≡ disconnected)
        → P t
        → P (record t { running = running; paused = paused; workers = workers }) × P (log effect t))
      (keeps_failure : (t : QueueTrigger S) → P t → P (count_failure t))
      (keeps_message : (raw : RawMessage) (t : QueueTrigger S)
        → P t
        → P (consume_message setup raw t)) where
    proceed_if-keeps :
        (running paused : Bool) (raw : RawMessage) (t : QueueTrigger S)
        → P t
        → P (proceed_if running paused setup raw t).trigger
    proceed_if-keeps false paused raw t h = h
    proceed_if-keeps true true raw t h = h
    proceed_if-keeps true false raw t h = keeps_message raw t h

    start_workers-keeps : (b : Bool) (t : QueueTrigger S) → P t → P (start_workers setup b t).1
    start_workers-keeps false t h = h
    start_workers-keeps true t h =
        (keeps_controls t connected t.running t.paused (pos_part setup.config.concurrency)
          (inl refl) h).0

    start_if-keeps : (b : Bool) (t : QueueTrigger S) → P t → P (start_if b setup t).1
    start_if-keeps true t h = h
    start_if-keeps false t h =
        let t' : QueueTrigger S = record (log connected t) { running = true; paused = false } in
        start_workers-keeps (setup.externals.adapter_ok t'.effects) t'
          (keeps_controls (log connected t) connected true false t.workers (inl refl)
            (keeps_controls t connected true false t.workers (inl refl) h).1).0

    stop_workers-keeps : (b : Bool) (t : QueueTrigger S) → P t → P (stop_workers b t).1
    stop_workers-keeps false t h = h
    stop_workers-keeps true t h = (keeps_controls t connected t.running t.paused 0 (inl refl) h).0

    stop-keeps : (t : QueueTrigger S) → P t → P (stop setup t).1
    unfolding stop
    stop-keeps t h =
        let t' : QueueTrigger S = record (log disconnected t) { running = false; paused = false } in
        stop_workers-keeps (setup.externals.adapter_ok t'.effects) t'
          (keeps_controls (log disconnected t) connected false false t.workers (inl refl)
            (keeps_controls t disconnected true false t.workers (inr refl) h).1).0

    restarted-keeps :
        (reply : Reply Unit) (t : QueueTrigger S) (w : Worker S)
        → P t
        → P (restarted (reply, t) w).trigger
    restarted-keeps (returned u) t w h = h
    restarted-keeps raised t w h = h

    on_arrival-keeps :
        (raw : RawMessage) (phase : Phase) (w : Worker S)
        → P w.trigger
        → P (on_arrival setup raw phase w).trigger
    unfolding proceed
    on_arrival-keeps raw waiting w h =
        proceed_if-keeps w.trigger.running w.trigger.paused raw w.trigger h
    on_arrival-keeps raw (holding other_raw) w h = h
    on_arrival-keeps raw ended w h = h

    on_wake-keeps : (phase : Phase) (w : Worker S) → P w.trigger → P (on_wake setup phase w).trigger
    unfolding proceed
    on_wake-keeps waiting w h = h
    on_wake-keeps (holding raw) w h =
        proceed_if-keeps w.trigger.running w.trigger.paused raw w.trigger h
    on_wake-keeps ended w h = h

    on_end-keeps :
        (crashed : Bool) (phase : Phase) (w : Worker S)
        → P w.trigger
        → P (on_end crashed phase w).trigger
    on_end-keeps false waiting w h = h
    on_end-keeps true waiting w h = keeps_failure w.trigger h
    on_end-keeps crashed (holding raw) w h = h
    on_end-keeps crashed ended w h = h

    step-keeps : (event : Event) (w : Worker S) → P w.trigger → P (step setup event w).trigger
    unfolding step start pause_trigger resume_trigger
    step-keeps start_called w h =
        let run = start setup w.trigger in
        restarted-keeps run.0 run.1 w (start_if-keeps w.trigger.running w.trigger h)
    step-keeps stop_called w h = stop-keeps w.trigger h
    step-keeps pause_called w h =
        (keeps_controls w.trigger connected w.trigger.running true w.trigger.workers (inl refl) h).0
    step-keeps resume_called w h =
        (keeps_controls w.trigger connected w.trigger.running false w.trigger.workers (inl refl)
          h).0
    step-keeps (arrived raw) w h = on_arrival-keeps raw w.phase w h
    step-keeps stream_closed w h = on_end-keeps false w.phase w h
    step-keeps stream_failed w h = on_end-keeps true w.phase w h
    step-keeps woke w h = on_wake-keeps w.phase w h

    pub run_events-keeps :
        (events : List Event) (w : Worker S) → P w.trigger → P (run_events setup events w).trigger
    unfolding run_events
    run_events-keeps [] w h = h
    run_events-keeps (event ∷ events) w h =
        run_events-keeps events (step setup event w) (step-keeps event w h)

  -- Behind any sequence of control calls, messages, failures and sleeps, the trigger's own counters are
  -- those of its metrics, and a latency was recorded for each processed message.
  pub run_events-IsBalanced :
      (events : List Event) (w : Worker S)
      → IsBalanced w.trigger
      → IsBalanced (run_events setup events w).trigger
  run_events-IsBalanced events w h =
      run_events-keeps IsBalanced (λ t effect running paused workers which h. (h, h))
        (λ t h. (h.0, ap suc h.1, h.2, h.3)) (λ raw t h. (consume_message-Counted setup raw t).0 h)
        events w h
