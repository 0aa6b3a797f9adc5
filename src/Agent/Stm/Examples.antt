-- ===== src/Agent/Stm/Examples.antt =====
-- Runs of owlclaw/agent/memory/stm.py, where a token is a character.
use owlclaw.Agent.Stm.{
  Round, StmManager, add_function_call, compress_if_needed, last_rounds, recompute_token_count,
  summary_round, text_prefix, write_function_call,
}
use owlclaw.Agent.Stm.Window.{Call, function_call, last_rounds-perform, perform, rounds_after}
use owlclaw.Base.{String, [], none, refl, suc, ℕ, ◌∷◌, ◌≡◌}
use owlclaw.Base.Int.{pos, ◌+ℤ◌}
use owlclaw.Base.Number.{decimal, nat_to_text}
use owlclaw.Base.Value.{Value, dict, end, field, null, str}

abbrev characters : String → ℕ
characters String.[] = 0
characters (String.◌∷◌ c s) = suc (characters s)

abbrev no_text : Value → String
no_text value = "{}"

abbrev round_of : String → Round
round_of name = record { name = name; args = null; result = null; response = "" }

abbrev full : StmManager
full = record {
  max_tokens = pos 9;
  fixed_zone = none;
  sliding_zone = round_of "a" ∷ round_of "b" ∷ round_of "c" ∷ [];
  injected = [];
  token_count = pos 9;
}

abbrev call : Call
call = function_call "d" null null

compresses :
    (perform characters no_text full call).sliding_zone
    ≡ summary_round 1 ∷ round_of "b" ∷ round_of "c" ∷ round_of "d" ∷ []
unfolding perform add_function_call write_function_call compress_if_needed recompute_token_count
    ◌+ℤ◌ text_prefix
compresses = refl

summary_test :
    (summary_round 12).result ≡ dict (field "text" (str "[12 earlier rounds summarized]") end)
unfolding summary_round nat_to_text decimal
summary_test = refl

last_rounds-perform_example :
    last_rounds (perform characters no_text full call).sliding_zone
    ≡ last_rounds (rounds_after call full.sliding_zone)
last_rounds-perform_example = last_rounds-perform characters no_text full call
