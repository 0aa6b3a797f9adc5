-- ===== src/DbChange/Aggregator/Schedule.antt =====
-- When an aggregator hands its events over: its bounds, and its debounce task.
use owlclaw.Base.{
  Bool, Bool-cases, List, Option, [], ap, arith, false, inl, inr, leb, leb→le, length, length-drop,
  ltb, none, refl, some, sym, true, ℕ, ◌++◌, ◌-◌, ◌<◌, ◌↔◌, ◌∙◌, ◌∷◌, ◌≡◌, ◌≢◌, ◌≤◌, ◌⊎◌,
}
use owlclaw.DbChange.Aggregator.{
  Action, AggregationMode, CallbackRun, Delivery, DeliveryEnd, EventAggregator, batch, debounce,
  end_of, enforce_memory_bound, flush_batch, flush_locked, flush_or_wait, flushes, hybrid,
  interrupted, is_current, is_full, must_flush, must_wait, new_aggregator, passthrough, perform,
  push, pushes, reset_debounce_task, run, wake, wakes,
}

end_of_interrupted :
    (callback : CallbackRun) → (end_of true callback ≡ interrupted) ↔ (callback.suspends ≡ true)
unfolding end_of
end_of_interrupted callback = ground arith

own_task :
    (current : Option ℕ) (task : ℕ) → current ≡ some task → is_current current (some task) ≡ true
unfolding is_current
own_task current task e = rw e (ground arith)

abbrev end_or : {E : Type 0} → DeliveryEnd → List (Delivery E) → DeliveryEnd
end_or x [] = x
end_or x (delivery ∷ rest) = delivery.end

module _ {E : Type 0} where
  -- The buffer is within its bound, and nothing waits that `push` would have flushed.
  abbrev pub IsBounded : EventAggregator E → Type 0
  IsBounded a =
      (length a.buffer ≤ a.max_buffer_events)
      × (must_flush a.mode a.batch_size (length a.buffer) ≡ true → a.buffer ≡ [])

  -- What waits has a debounce task, where the aggregator has a debounce time.
  abbrev pub IsScheduled : EventAggregator E → Type 0
  IsScheduled a =
      must_wait a.mode a.debounce_seconds ≡ true
      → (a.buffer ≡ []) ⊎ ((task : ℕ) × (a.debounce_task ≡ some task))

  abbrev pub IsSound : EventAggregator E → Type 0
  IsSound a = IsBounded a × IsScheduled a

  -- Fewer events wait than make a batch.
  abbrev pub IsBelowBatch : EventAggregator E → Type 0
  IsBelowBatch a = (size : ℕ) → a.batch_size ≡ some size → 0 < size → length a.buffer < size

  -- Events wait only with a debounce task, where there is a debounce time.
  abbrev pub HasTask : EventAggregator E → Type 0
  HasTask a =
      (seconds : ℕ)
      → a.debounce_seconds ≡ some seconds
      → (a.buffer ≡ []) ⊎ ((task : ℕ) × (a.debounce_task ≡ some task))

  -- The promises of the four modes.
  abbrev pub IsPromptIn : AggregationMode → EventAggregator E → Type 0
  IsPromptIn passthrough a = a.buffer ≡ []
  IsPromptIn batch a = IsBelowBatch a
  IsPromptIn debounce a = HasTask a
  IsPromptIn hybrid a = IsBelowBatch a × HasTask a

  abbrev pub IsPrompt : EventAggregator E → Type 0
  IsPrompt a = (length a.buffer ≤ a.max_buffer_events) × IsPromptIn a.mode a

  below_batch :
      (a : EventAggregator E)
      → (is_full a.batch_size (length a.buffer) ≡ true → a.buffer ≡ [])
      → IsBelowBatch a
  below_batch a h size e positive = elim (Bool-cases (leb size (length a.buffer))) [
    | inr few ↦ ground arith
    | inl many ↦
        let some_room : ltb 0 size ≡ true = ground arith in
        let full : is_full a.batch_size (length a.buffer) ≡ true = rw (e, some_room, many) refl in
        let empty : length a.buffer ≡ 0 = ap length (h full) in omega (arith, empty)
  ]

  IsSound-IsPrompt : (a : EventAggregator E) → IsSound a → IsPrompt a
  IsSound-IsPrompt a ((few, flushed), scheduled) = (few, go a.mode flushed scheduled)
    where
      go :
          (mode : AggregationMode)
          → (must_flush mode a.batch_size (length a.buffer) ≡ true → a.buffer ≡ [])
          → (must_wait mode a.debounce_seconds ≡ true
              → (a.buffer ≡ []) ⊎ ((task : ℕ) × (a.debounce_task ≡ some task)))
          → IsPromptIn mode a
      go passthrough f w = unfold must_flush in f refl
      go batch f w = unfold must_flush in below_batch a f
      go debounce f w = unfold must_wait in λ seconds e. w (rw e refl)
      go hybrid f w = unfold must_flush must_wait in (below_batch a f, λ seconds e. w (rw e refl))

  emptied-IsSound :
      (a : EventAggregator E) → IsSound (record a { buffer = []; debounce_task = none })
  emptied-IsSound a = ((omega arith, λ full. refl), λ waits. inl refl)

  enforce_memory_bound-le :
      (a : EventAggregator E)
      → length (enforce_memory_bound a).buffer ≤ (enforce_memory_bound a).max_buffer_events
  unfolding enforce_memory_bound
  enforce_memory_bound-le a = elim (Bool-cases (leb (length a.buffer - a.max_buffer_events) 0)) [
    | inl e ↦ rw e (omega (arith, leb→le (length a.buffer - a.max_buffer_events) 0 e))
    | inr e ↦ rw e (omega (arith, length-drop (length a.buffer - a.max_buffer_events) a.buffer))
  ]

  first_end :
      {events : List E} {x y : DeliveryEnd}
      → Path
          (List (Delivery E))
          (record { events = events; end = x } ∷ [])
          (record { events = events; end = y } ∷ [])
      → x ≡ y
  first_end {x} e = ap (λ (ds : List (Delivery E)). end_or x ds) e

  module _ (on_flush : List E → CallbackRun) where
    flush_batch-IsSound :
        (a : EventAggregator E) (running : Option ℕ) (events : List E)
        → a.buffer ≡ events
        → length a.buffer ≤ a.max_buffer_events
        → IsSound (flush_batch on_flush a running events).0
    unfolding flush_batch
    flush_batch-IsSound a running [] e h = ((h, λ full. e), λ waits. inl e)
    flush_batch-IsSound a running (event ∷ rest) e h = emptied-IsSound a

    flush_locked-IsSound :
        (a : EventAggregator E) (running : Option ℕ)
        → length a.buffer ≤ a.max_buffer_events
        → IsSound (flush_locked on_flush a running).0
    unfolding flush_locked
    flush_locked-IsSound a running h = flush_batch-IsSound a running a.buffer refl h

    flush_or_wait-IsSound :
        (a : EventAggregator E) (full waits : Bool)
        → length a.buffer ≤ a.max_buffer_events
        → must_flush a.mode a.batch_size (length a.buffer) ≡ full
        → must_wait a.mode a.debounce_seconds ≡ waits
        → IsSound (flush_or_wait on_flush a full waits).0
    unfolding flush_or_wait reset_debounce_task
    flush_or_wait-IsSound a true waits h e f = flush_locked-IsSound a none h
    flush_or_wait-IsSound a false true h e f =
        ((h, λ full. absurd (cc)), λ waits. inr (a.next_task, refl))
    flush_or_wait-IsSound a false false h e f = ((h, λ full. absurd (cc)), λ waits. absurd (cc))

    push-IsSound : (a : EventAggregator E) (event : E) → IsSound (push on_flush a event).0
    unfolding push
    push-IsSound a event =
        let b = enforce_memory_bound (record a { buffer = a.buffer ++ event ∷ [] }) in
        flush_or_wait-IsSound b (must_flush b.mode b.batch_size (length b.buffer))
          (must_wait b.mode b.debounce_seconds)
          (enforce_memory_bound-le (record a { buffer = a.buffer ++ event ∷ [] })) refl refl

    wake-IsSound : (a : EventAggregator E) (task : ℕ) → IsSound a → IsSound (wake on_flush a task).0
    unfolding wake
    wake-IsSound a task h = elim (Bool-cases (is_current a.debounce_task (some task))) [
      | inl e ↦ rw e (flush_locked-IsSound a (some task) h.0.0)
      | inr e ↦ rw e h
    ]

    perform-IsSound :
        (a : EventAggregator E) (action : Action E)
        → IsSound a
        → IsSound (perform on_flush a action).0
    unfolding perform
    perform-IsSound a (pushes event) h = push-IsSound a event
    perform-IsSound a flushes h = flush_locked-IsSound a none h.0.0
    perform-IsSound a (wakes task) h = wake-IsSound a task h

    pub run-IsSound :
        (a : EventAggregator E) (actions : List (Action E))
        → IsSound a
        → IsSound (run on_flush a actions).0
    unfolding run
    run-IsSound a [] h = h
    run-IsSound a (action ∷ actions) h =
        run-IsSound (perform on_flush a action).0 actions (perform-IsSound a action h)

    new_aggregator-IsSound :
        (mode : AggregationMode) (seconds size : Option ℕ) (most : ℕ)
        → IsSound (new_aggregator mode seconds size most)
    unfolding new_aggregator
    new_aggregator-IsSound mode seconds size most = ((omega arith, λ full. refl), λ waits. inl refl)

    -- Through every sequence of calls of a new aggregator, the buffer holds at most as many events as
    -- its bound says; in the mode passthrough it is empty, and in the modes batch and hybrid, with a
    -- positive batch size, it holds fewer events than that; and in the modes debounce and hybrid, with
    -- a debounce time, events that wait have a debounce task.
    pub run-IsPrompt :
        (mode : AggregationMode) (seconds size : Option ℕ) (most : ℕ) (actions : List (Action E))
        → IsPrompt (run on_flush (new_aggregator mode seconds size most) actions).0
    run-IsPrompt mode seconds size most actions =
        IsSound-IsPrompt (run on_flush (new_aggregator mode seconds size most) actions).0 (
          run-IsSound (new_aggregator mode seconds size most) actions
            (new_aggregator-IsSound mode seconds size most))

    -- All that waits in `a` is handed over in one call by the task that the flush cancels.
    abbrev pub Delivers : EventAggregator E → EventAggregator E × List (Delivery E) → Type 0
    Delivers a (b, ds) =
        (ds ≡ record { events = a.buffer; end = end_of true (on_flush a.buffer) } ∷ [])
        × (b.buffer ≡ [])
        × (b.dropped_events ≡ a.dropped_events)

    flush_batch-Delivers :
        (a : EventAggregator E) (running : Option ℕ) (events : List E)
        → a.buffer ≡ events
        → is_current a.debounce_task running ≡ true
        → a.buffer ≢ []
        → Delivers a (flush_batch on_flush a running events)
    unfolding flush_batch
    flush_batch-Delivers a running [] e own waits = absurd (waits e)
    flush_batch-Delivers a running (event ∷ rest) e own waits = rw (own, e) (refl, refl, refl)

    wake-Delivers :
        (a : EventAggregator E) (task : ℕ)
        → a.debounce_task ≡ some task
        → a.buffer ≢ []
        → Delivers a (wake on_flush a task)
    unfolding wake flush_locked
    wake-Delivers a task e waits =
        let own : is_current a.debounce_task (some task) ≡ true = own_task a.debounce_task task e in
        rw own (flush_batch-Delivers a (some task) a.buffer refl own waits)

    -- After every sequence of calls, events that wait under a debounce time have a task, and the end
    -- of its sleep hands all of them to the callback in one call and drops none.
    pub run-Delivers :
        (a : EventAggregator E) (actions : List (Action E))
        → IsSound a
        → let b = (run on_flush a actions).0 in
          must_wait b.mode b.debounce_seconds ≡ true
          → b.buffer ≢ []
          → (task : ℕ) × (b.debounce_task ≡ some task) × Delivers b (wake on_flush b task)
    run-Delivers a actions h timed waits =
        let b = (run on_flush a actions).0 in
        elim ((run-IsSound a actions h).1 timed) [
          | inl e ↦ absurd (waits e)
          | inr (task, e) ↦ (task, e, wake-Delivers b task e waits)
        ]

    -- The end of a debounce time interrupts the callback exactly if the callback suspends, and
    -- whatever becomes of it, the events are in the buffer no longer.
    pub wake-interrupts :
        (a : EventAggregator E) (task : ℕ)
        → a.debounce_task ≡ some task
        → a.buffer ≢ []
        → (((wake on_flush a task).1 ≡ record { events = a.buffer; end = interrupted } ∷ [])
            ↔ ((on_flush a.buffer).suspends ≡ true))
          × ((wake on_flush a task).0.buffer ≡ [])
    wake-interrupts a task e waits =
        let (handed_over, emptied, same) = wake-Delivers a task e waits in
        let iff = end_of_interrupted (on_flush a.buffer) in
        (
          (
            (λ all. iff.0 (first_end (sym handed_over ∙ all))),
            (λ slow.
                handed_over
                ∙ ap (λ (end : DeliveryEnd). record { events = a.buffer; end = end } ∷ [])
                    (iff.1 slow)),
          ),
          emptied,
        )
