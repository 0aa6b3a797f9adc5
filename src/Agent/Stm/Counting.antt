-- ===== src/Agent/Stm/Counting.antt =====
-- The token counter of owlclaw/agent/memory/stm.py.
use owlclaw.Agent.Stm.{Round, StmManager, or_default, text_of_trigger, text_prefix}
use owlclaw.Agent.Stm.Window.{Call, function_call, inject_call, response_call, trigger_call}
use owlclaw.Base.{List, String, [], concat, length, ℕ, ◌+◌, ◌<◌, ◌∷◌, ◌≡◌, ◌≤◌, ◌⊎◌}
use owlclaw.Base.Int.{pos, ℤ, ◌-ℤ◌, ◌<ℤ◌, ◌≤ℤ◌}
use owlclaw.Base.Value.{Value, dict, end, field, str}

-- The sum of a measure over a list.
abbrev pub sum_of {ℓ} : {A : Type ℓ} → (A → ℕ) → List A → ℕ
sum_of f [] = 0
sum_of f (x ∷ xs) = f x + sum_of f xs

module _ (count_tokens : String → ℕ) (dumps : Value → String) where
  -- The tokens of one round: those of its call as JSON, and those of its response.
  abbrev pub round_size : Round → ℕ
  round_size round =
      count_tokens (
        dumps (
          dict (
            field "name" (str round.name)
              (field "args" round.args (field "result" round.result end)))))
      + count_tokens round.response

  -- The tokens of all that the manager holds.
  abbrev pub held_tokens : StmManager → ℤ
  held_tokens s = pos (
      count_tokens (text_of_trigger s.fixed_zone)
      + sum_of count_tokens s.injected
      + sum_of round_size s.sliding_zone)

  -- The text of the trigger that a call leaves.
  abbrev pub text_after : Call → String → String
  text_after (trigger_call type payload focus) before = concat (
      "Trigger: "
      ∷ type
      ∷ "\nFocus: "
      ∷ or_default "(none)" focus
      ∷ "\nPayload: "
      ∷ text_prefix 500 (dumps payload)
      ∷ [])
  text_after _ before = before

  -- What a call adds to the counter: the tokens of what it writes, less those of what it replaces.
  abbrev pub growth : Call → String → ℤ
  growth (function_call name args result) before = pos (
      count_tokens (
        concat (
          "Call: "
          ∷ name
          ∷ " | args: "
          ∷ text_prefix 200 (dumps args)
          ∷ " | result: "
          ∷ text_prefix 300 (dumps result)
          ∷ [])))
  growth (response_call content) before = pos (count_tokens content)
  growth (inject_call instruction) before = pos (count_tokens instruction)
  growth (trigger_call type payload focus) before =
      pos (count_tokens (text_after (trigger_call type payload focus) before))
      -ℤ pos (count_tokens before)

  -- A manager with the counter `count` and the rounds `rounds` is compressed exactly if the counter is
  -- above the limit and there are more than three rounds.
  abbrev pub IsCounted : ℤ → List Round → StmManager → Type 0
  IsCounted count rounds s =
      ((count ≤ℤ s.max_tokens) ⊎ (length rounds ≤ 3)
        → (s.token_count ≡ count) × (s.sliding_zone ≡ rounds))
      × (s.max_tokens <ℤ count
          → 3 < length rounds
          → (s.token_count ≡ held_tokens s) × (length s.sliding_zone ≡ 4))
