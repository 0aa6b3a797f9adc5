-- ===== src/Agent/Stm/Window.antt =====
-- What the sliding window of owlclaw/agent/memory/stm.py keeps.
use owlclaw.Agent.Stm.{
  Round, StmManager, add_function_call, add_llm_response, add_trigger, compress_if_needed, inject,
  keep_rounds, last_rounds, recompute_token_count, set_response, write_function_call,
  write_injected, write_response, write_trigger,
}
use owlclaw.Base.{
  Bool-cases, List, Option, String, [], arith, inl, inr, leb, length, length-drop_last, refl, ℕ,
  ◌++◌, ◌∷◌, ◌≡◌,
}
use owlclaw.Base.Int.{leb_ℤ}
use owlclaw.Base.Value.{Value}

-- A call of the manager's interface.
pub data Call : Type 0 where
  trigger_call : String → Value → Option String → Call
  function_call : String → Value → Value → Call
  response_call inject_call : String → Call

-- The rounds that a call leaves where nothing is compressed: a function call adds one, and a
-- response goes to the last one.
abbrev pub rounds_after : Call → List Round → List Round
rounds_after (function_call name args result) rounds =
    rounds ++ record { name = name; args = args; result = result; response = "" } ∷ []
rounds_after (response_call content) rounds = set_response content rounds
rounds_after _ rounds = rounds

module _ (count_tokens : String → ℕ) (dumps : Value → String) where
  unfoldable pub perform : StmManager → Call → StmManager
  perform s (trigger_call type payload focus) = add_trigger count_tokens dumps s type payload focus
  perform s (function_call name args result) =
      add_function_call count_tokens dumps s name args result
  perform s (response_call content) = add_llm_response count_tokens dumps s content
  perform s (inject_call instruction) = inject count_tokens dumps s instruction

  recent_compressed :
      (s : StmManager)
      → last_rounds (compress_if_needed count_tokens dumps s).sliding_zone
        ≡ last_rounds s.sliding_zone
  unfolding compress_if_needed recompute_token_count
  recent_compressed s = elim (Bool-cases (leb_ℤ s.token_count s.max_tokens)) [
    | inl fits ↦ rw fits refl
    | inr over ↦ elim (Bool-cases (leb (length s.sliding_zone) keep_rounds)) [
      | inl short ↦ rw (over, short) refl
      | inr long ↦ rw (over, long, length-drop_last keep_rounds s.sliding_zone (ground arith)) refl
    ]
  ]

  -- Whether or not a call compresses the window, the last three rounds behind it are, in full, those
  -- that it would leave with no compression.
  pub last_rounds-perform :
      (s : StmManager) (c : Call)
      → last_rounds (perform s c).sliding_zone ≡ last_rounds (rounds_after c s.sliding_zone)
  unfolding perform add_trigger add_function_call add_llm_response inject write_trigger
      write_function_call write_response write_injected
  last_rounds-perform s (trigger_call type payload focus) =
      recent_compressed (write_trigger count_tokens dumps s type payload focus)
  last_rounds-perform s (function_call name args result) =
      recent_compressed (write_function_call count_tokens dumps s name args result)
  last_rounds-perform s (response_call content) =
      recent_compressed (write_response count_tokens dumps s content)
  last_rounds-perform s (inject_call instruction) =
      recent_compressed (write_injected count_tokens dumps s instruction)
