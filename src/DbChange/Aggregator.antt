-- ===== src/DbChange/Aggregator.antt =====
-- owlclaw/triggers/db_change/aggregator.py: `EventAggregator`.
-- The lock makes every call one step. A debounce task is a number; one that is no longer
-- `_debounce_task` has been cancelled. What the callback `on_flush` does is an argument: it may
-- suspend, it may raise, and it lets a cancellation pass.
pub mod Accounts
pub mod Schedule
mod Examples
use owlclaw.Base.{
  Bool, List, Option, [], drop, false, if◌then◌else◌, leb, length, ltb, nat_eq, none, some, suc,
  true, ℕ, ◌&&◌, ◌++◌, ◌+◌, ◌-◌, ◌∷◌,
}

pub data AggregationMode : Type 0 where
  passthrough debounce batch hybrid : AggregationMode

pub record EventAggregator (E : Type 0) : Type 0 where
  pub mode : AggregationMode
  pub debounce_seconds : Option ℕ
  pub batch_size : Option ℕ
  pub max_buffer_events : ℕ
  pub buffer : List E
  pub debounce_task : Option ℕ
  pub next_task : ℕ
  pub dropped_events : ℕ

-- `push`, `flush` and the end of the sleep of a debounce task.
pub data Action (E : Type 0) : Type 0 where
  pushes : E → Action E
  flushes : Action E
  wakes : ℕ → Action E

-- What a run of the callback does by itself.
pub record CallbackRun : Type 0 where
  pub suspends : Bool
  pub raises : Bool

pub data DeliveryEnd : Type 0 where
  finished failed interrupted : DeliveryEnd

-- A call of the callback.
pub record Delivery (E : Type 0) : Type 0 where
  pub events : List E
  pub end : DeliveryEnd

-- A task that has cancelled itself goes on until it suspends.
unfoldable pub end_of : Bool → CallbackRun → DeliveryEnd
end_of cancelled callback =
    if cancelled && callback.suspends
    then interrupted
    else if callback.raises
    then failed
    else finished

unfoldable pub is_current : Option ℕ → Option ℕ → Bool
is_current (some task) (some running) = nat_eq task running
is_current _ _ = false

-- `self._batch_size and len(self._buffer) >= self._batch_size`
abbrev pub is_full : Option ℕ → ℕ → Bool
is_full none n = false
is_full (some size) n = ltb 0 size && leb size n

-- The conditions under which `push` flushes.
unfoldable pub must_flush : AggregationMode → Option ℕ → ℕ → Bool
must_flush passthrough size n = true
must_flush debounce size n = false
must_flush batch size n = is_full size n
must_flush hybrid size n = is_full size n

-- The condition under which `push` starts a debounce task.
unfoldable pub must_wait : AggregationMode → Option ℕ → Bool
must_wait debounce (some seconds) = true
must_wait hybrid (some seconds) = true
must_wait _ _ = false

module _ {E : Type 0} where
  -- `__init__`
  unfoldable pub new_aggregator : AggregationMode → Option ℕ → Option ℕ → ℕ → EventAggregator E
  new_aggregator mode debounce_seconds batch_size max_buffer_events = record {
    mode = mode;
    debounce_seconds = debounce_seconds;
    batch_size = batch_size;
    max_buffer_events = max_buffer_events;
    buffer = [];
    debounce_task = none;
    next_task = 0;
    dropped_events = 0;
  }

  -- `_enforce_memory_bound`
  unfoldable pub enforce_memory_bound : EventAggregator E → EventAggregator E
  enforce_memory_bound a =
      let overflow = length a.buffer - a.max_buffer_events in
      if leb overflow 0 then a else record a {
        buffer = drop overflow a.buffer;
        dropped_events = a.dropped_events + overflow;
      }

  -- `_reset_debounce_task`
  unfoldable pub reset_debounce_task : EventAggregator E → EventAggregator E
  reset_debounce_task a = record a { debounce_task = some a.next_task; next_task = suc a.next_task }

  module _ (on_flush : List E → CallbackRun) where
    -- `_flush_locked`, behind the buffer
    unfoldable pub flush_batch :
        EventAggregator E → Option ℕ → List E → EventAggregator E × List (Delivery E)
    flush_batch a running [] = (a, [])
    flush_batch a running (event ∷ rest) =
        let events : List E = event ∷ rest in
        (
          record a { buffer = []; debounce_task = none },
          record {
            events = events;
            end = end_of (is_current a.debounce_task running) (on_flush events);
          }
              ∷ [],
        )

    -- `_flush_locked`; `running` is the debounce task that runs it, if one does.
    unfoldable pub flush_locked :
        EventAggregator E → Option ℕ → EventAggregator E × List (Delivery E)
    flush_locked a running = flush_batch a running a.buffer

    -- The rest of `push`, behind the event in the buffer.
    unfoldable pub flush_or_wait :
        EventAggregator E → Bool → Bool → EventAggregator E × List (Delivery E)
    flush_or_wait a true waits = flush_locked a none
    flush_or_wait a false true = (reset_debounce_task a, [])
    flush_or_wait a false false = (a, [])

    -- `push`
    unfoldable pub push : EventAggregator E → E → EventAggregator E × List (Delivery E)
    push a event =
        let b = enforce_memory_bound (record a { buffer = a.buffer ++ event ∷ [] }) in
        flush_or_wait b (must_flush b.mode b.batch_size (length b.buffer))
          (must_wait b.mode b.debounce_seconds)

    -- `_debounce_wait_then_flush`, when the sleep of `task` is over
    unfoldable pub wake : EventAggregator E → ℕ → EventAggregator E × List (Delivery E)
    wake a task =
        if is_current a.debounce_task (some task) then flush_locked a (some task) else (a, [])

    -- The calls of an aggregator, and the ends of sleeps.
    unfoldable pub perform : EventAggregator E → Action E → EventAggregator E × List (Delivery E)
    perform a (pushes event) = push a event
    perform a flushes = flush_locked a none
    perform a (wakes task) = wake a task

    unfoldable pub run : EventAggregator E → List (Action E) → EventAggregator E × List (Delivery E)
    run a [] = (a, [])
    run a (action ∷ actions) =
        let (b, first) = perform a action in let (c, later) = run b actions in (c, first ++ later)
