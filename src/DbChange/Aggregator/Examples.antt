-- ===== src/DbChange/Aggregator/Examples.antt =====
-- Runs of owlclaw/triggers/db_change/aggregator.py: three changes, a buffer of two, a debounce time
-- and batches of three.
use owlclaw.Base.{List, [], arith, false, inl, none, refl, some, true, ℕ, ◌↔◌, ◌∷◌, ◌≡◌, ◌≢◌}
use owlclaw.DbChange.Aggregator.{
  Action, CallbackRun, EventAggregator, enforce_memory_bound, flush_or_wait, hybrid, interrupted,
  must_flush, must_wait, new_aggregator, perform, push, pushes, reset_debounce_task, run, wake,
}
use owlclaw.DbChange.Aggregator.Accounts.{Accounts, run-Accounts}
use owlclaw.DbChange.Aggregator.Schedule.{
  Delivers, IsPrompt, IsSound, run-Delivers, run-IsPrompt, wake-interrupts,
}

abbrev slow : List ℕ → CallbackRun
slow events = record { suspends = true; raises = false }

abbrev fresh : EventAggregator ℕ
fresh = record {
  mode = hybrid;
  debounce_seconds = some 5;
  batch_size = some 3;
  max_buffer_events = 2;
  buffer = [];
  debounce_task = none;
  next_task = 0;
  dropped_events = 0;
}

new_is_fresh : new_aggregator hybrid (some 5) (some 3) 2 ≡ fresh
unfolding new_aggregator
new_is_fresh = refl

abbrev three_changes : List (Action ℕ)
three_changes = pushes 7 ∷ pushes 8 ∷ pushes 9 ∷ []

abbrev waiting : EventAggregator ℕ
waiting = record fresh {
  buffer = 8 ∷ 9 ∷ [];
  debounce_task = some 2;
  next_task = 3;
  dropped_events = 1;
}

three_changes_wait : run slow fresh three_changes ≡ (waiting, [])
unfolding run perform push enforce_memory_bound flush_or_wait reset_debounce_task must_flush
    must_wait
three_changes_wait = refl

fresh-IsSound : IsSound fresh
unfolding must_flush
fresh-IsSound = ((omega arith, λ full. refl), λ waits. inl refl)

still_waits : (run slow fresh three_changes).0.buffer ≢ []
still_waits e = cc (rw three_changes_wait at e)

timed :
    must_wait
      (run slow fresh three_changes).0.mode
      (run slow fresh three_changes).0.debounce_seconds
    ≡ true
unfolding must_wait
timed = rw three_changes_wait refl

waiting_filled : waiting.buffer ≢ []
waiting_filled e = cc

run-Accounts_example : Accounts fresh (7 ∷ 8 ∷ 9 ∷ []) (run slow fresh three_changes)
run-Accounts_example = run-Accounts slow fresh three_changes

run-IsPrompt_example :
    IsPrompt (run slow (new_aggregator hybrid (some 5) (some 3) 2) three_changes).0
run-IsPrompt_example = run-IsPrompt slow hybrid (some 5) (some 3) 2 three_changes

run-Delivers_example :
    let b = (run slow fresh three_changes).0 in
    (task : ℕ) × (b.debounce_task ≡ some task) × Delivers slow b (wake slow b task)
run-Delivers_example = run-Delivers slow fresh three_changes fresh-IsSound timed still_waits

wake-interrupts_example :
    (((wake slow waiting 2).1 ≡ record { events = 8 ∷ 9 ∷ []; end = interrupted } ∷ [])
      ↔ (true ≡ true))
    × ((wake slow waiting 2).0.buffer ≡ [])
wake-interrupts_example = wake-interrupts slow waiting 2 refl waiting_filled
