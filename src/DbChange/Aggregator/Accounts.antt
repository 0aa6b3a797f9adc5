-- ===== src/DbChange/Aggregator/Accounts.antt =====
-- What becomes of the events that an aggregator is given.
use mathlib.Core.List.{Sublistᴰ, append-nil, append_assoc}
use mathlib.Core.List.Sublistᴰ
use owlclaw.Base.{
  Bool, Bool-cases, List, Option, [], ap, arith, drop, false, inl, inr, leb, length, length-append,
  length-drop, none, refl, some, suc, sym, true, zero, ℕ, ◌++◌, ◌+◌, ◌-◌, ◌∙◌, ◌∷◌, ◌≡◌,
}
use owlclaw.DbChange.Aggregator.{
  Action, CallbackRun, Delivery, EventAggregator, enforce_memory_bound, flush_batch, flush_locked,
  flush_or_wait, flushes, is_current, must_flush, must_wait, perform, push, pushes,
  reset_debounce_task, run, wake, wakes,
}

abbrev pub handed : {E : Type 0} → List (Delivery E) → List E
handed [] = []
handed (delivery ∷ rest) = delivery.events ++ handed rest

abbrev pub pushed : {E : Type 0} → List (Action E) → List E
pushed [] = []
pushed (pushes event ∷ rest) = event ∷ pushed rest
pushed (flushes ∷ rest) = pushed rest
pushed (wakes task ∷ rest) = pushed rest

module _ {E : Type 0} where
  drop-sublist : (n : ℕ) (xs : List E) → Sublistᴰ (drop n xs) xs
  drop-sublist zero xs = Sublistᴰ.refl xs
  drop-sublist (suc n) [] = Sublistᴰ.slnil
  drop-sublist (suc n) (x ∷ xs) = Sublistᴰ.cons (drop-sublist n xs)

  handed-append : (ds es : List (Delivery E)) → handed (ds ++ es) ≡ handed ds ++ handed es
  handed-append [] es = refl
  handed-append (d ∷ ds) es =
      rw (handed-append ds es, append_assoc d.events (handed ds) (handed es)) refl

  -- Between the state `a` and what a call leaves, nothing but `xs` came in.
  abbrev pub Accounts : EventAggregator E → List E → EventAggregator E × List (Delivery E) → Type 0
  Accounts a xs (b, ds) =
      Sublistᴰ (handed ds ++ b.buffer) (a.buffer ++ xs)
      × (length (handed ds) + length b.buffer + b.dropped_events
          ≡ length a.buffer + length xs + a.dropped_events)

  enforce_memory_bound-keeps :
      (a : EventAggregator E)
      → Sublistᴰ (enforce_memory_bound a).buffer a.buffer
        × (length (enforce_memory_bound a).buffer + (enforce_memory_bound a).dropped_events
            ≡ length a.buffer + a.dropped_events)
  unfolding enforce_memory_bound
  enforce_memory_bound-keeps a = elim (Bool-cases (leb (length a.buffer - a.max_buffer_events) 0)) [
    | inl e ↦ rw e (Sublistᴰ.refl a.buffer, refl)
    | inr e ↦ rw e (
      drop-sublist (length a.buffer - a.max_buffer_events) a.buffer,
      omega (arith, length-drop (length a.buffer - a.max_buffer_events) a.buffer),
    )
  ]

  module _ (on_flush : List E → CallbackRun) where
    -- A call that drops nothing, and hands over or keeps what was there.
    abbrev Moves : EventAggregator E → EventAggregator E × List (Delivery E) → Type 0
    Moves a (b, ds) = (handed ds ++ b.buffer ≡ a.buffer) × (b.dropped_events ≡ a.dropped_events)

    flush_batch-Moves :
        (a : EventAggregator E) (running : Option ℕ) (events : List E)
        → a.buffer ≡ events
        → Moves a (flush_batch on_flush a running events)
    unfolding flush_batch
    flush_batch-Moves a running [] e = (refl, refl)
    flush_batch-Moves a running (event ∷ rest) e = (
      ap (λ (l : List E). l ++ []) (append-nil (event ∷ rest)) ∙ append-nil (event ∷ rest) ∙ sym e,
      refl,
    )

    flush_locked-Moves :
        (a : EventAggregator E) (running : Option ℕ) → Moves a (flush_locked on_flush a running)
    unfolding flush_locked
    flush_locked-Moves a running = flush_batch-Moves a running a.buffer refl

    flush_or_wait-Moves :
        (a : EventAggregator E) (full waits : Bool) → Moves a (flush_or_wait on_flush a full waits)
    unfolding flush_or_wait reset_debounce_task
    flush_or_wait-Moves a true waits = flush_locked-Moves a none
    flush_or_wait-Moves a false true = (refl, refl)
    flush_or_wait-Moves a false false = (refl, refl)

    wake-Moves : (a : EventAggregator E) (task : ℕ) → Moves a (wake on_flush a task)
    unfolding wake
    wake-Moves a task = elim (Bool-cases (is_current a.debounce_task (some task))) [
      | inl e ↦ rw e (flush_locked-Moves a (some task))
      | inr e ↦ rw e (refl, refl)
    ]

    Moves-length :
        (a b : EventAggregator E) (ds : List (Delivery E))
        → Moves a (b, ds)
        → length (handed ds) + length b.buffer ≡ length a.buffer
    Moves-length a b ds (e, f) = sym (length-append (handed ds) b.buffer) ∙ ap length e

    Moves-Accounts :
        (a : EventAggregator E) (r : EventAggregator E × List (Delivery E))
        → Moves a r
        → Accounts a [] r
    Moves-Accounts a (b, ds) (e, f) = (
      rw (e, append-nil a.buffer) (Sublistᴰ.refl a.buffer),
      omega (arith, Moves-length a b ds (e, f), f),
    )

    push-Accounts :
        (a : EventAggregator E) (event : E) → Accounts a (event ∷ []) (push on_flush a event)
    unfolding push
    push-Accounts a event =
        let filled : EventAggregator E = record a { buffer = a.buffer ++ event ∷ [] } in
        let b = enforce_memory_bound filled in
        let (fewer, count) = enforce_memory_bound-keeps filled in
        let full = must_flush b.mode b.batch_size (length b.buffer) in
        let waits = must_wait b.mode b.debounce_seconds in
        let moves = flush_or_wait-Moves b full waits in
        let r = flush_or_wait on_flush b full waits in
        (
          rw moves.0 fewer,
          omega (
            arith,
            Moves-length b r.0 r.1 moves,
            moves.1,
            count,
            length-append a.buffer (event ∷ []),
          ),
        )

    perform-Accounts :
        (a : EventAggregator E) (action : Action E)
        → Accounts a (pushed (action ∷ [])) (perform on_flush a action)
    unfolding perform
    perform-Accounts a (pushes event) = push-Accounts a event
    perform-Accounts a flushes =
        Moves-Accounts a (flush_locked on_flush a none) (flush_locked-Moves a none)
    perform-Accounts a (wakes task) = Moves-Accounts a (wake on_flush a task) (wake-Moves a task)

    pushed_cons :
        (action : Action E) (actions : List (Action E))
        → pushed (action ∷ actions) ≡ pushed (action ∷ []) ++ pushed actions
    pushed_cons (pushes event) actions = refl
    pushed_cons flushes actions = refl
    pushed_cons (wakes task) actions = refl

    then_Accounts :
        (a b c : EventAggregator E) (xs ys : List E) (ds es : List (Delivery E))
        → Accounts a xs (b, ds)
        → Accounts b ys (c, es)
        → Accounts a (xs ++ ys) (c, ds ++ es)
    then_Accounts a b c xs ys ds es (s, m) (t, n) = (
      rw (handed-append ds es, append_assoc (handed ds) (handed es) c.buffer)
          (Sublistᴰ.trans (Sublistᴰ.append (Sublistᴰ.refl (handed ds)) t) (
            rw (sym (append_assoc (handed ds) b.buffer ys), sym (append_assoc a.buffer xs ys))
              (Sublistᴰ.append s (Sublistᴰ.refl ys)))),
      rw (handed-append ds es)
          (omega (arith, m, n, length-append (handed ds) (handed es), length-append xs ys)),
    )

    -- Through every sequence of calls, the events that are handed to the callback, followed by those
    -- that wait in the buffer, stand in the order in which they came, each at most once; and every
    -- event was handed over, waits, or is counted as dropped.
    pub run-Accounts :
        (a : EventAggregator E) (actions : List (Action E))
        → Accounts a (pushed actions) (run on_flush a actions)
    unfolding run
    run-Accounts a [] = Moves-Accounts a (a, []) (refl, refl)
    run-Accounts a (action ∷ actions) =
        let step = perform on_flush a action in
        let rest = run on_flush step.0 actions in
        rw (pushed_cons action actions) (
          then_Accounts a step.0 rest.0 (pushed (action ∷ [])) (pushed actions) step.1 rest.1
            (perform-Accounts a action) (run-Accounts step.0 actions))
