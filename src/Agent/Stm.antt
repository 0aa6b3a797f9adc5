-- ===== src/Agent/Stm.antt =====
-- owlclaw/agent/memory/stm.py: `STMManager`, but for its rendering.
-- `count_tokens` is `_count_tokens`, which asks tiktoken, and `dumps` is `json.dumps(…, default=str)`.
pub mod Window
pub mod Counting
mod Examples
use owlclaw.Base.{
  List, Option, String, [], concat, drop, if◌then◌else◌, is_empty, leb, length, none, some, suc,
  zero, ℕ, ◌++◌, ◌+◌, ◌-◌, ◌∷◌,
}
use owlclaw.Base.Int.{leb_ℤ, pos, ℤ, ◌+ℤ◌, ◌-ℤ◌}
use owlclaw.Base.Number.{nat_to_text}
use owlclaw.Base.Value.{Value, dict, end, field, str}

pub record Round : Type 0 where
  pub name : String
  pub args : Value
  pub result : Value
  pub response : String

pub record FixedZone : Type 0 where
  pub trigger_type : String
  pub trigger_payload : Value
  pub focus : String
  pub trigger_text : String

pub record StmManager : Type 0 where
  pub max_tokens : ℤ
  pub fixed_zone : Option FixedZone
  pub sliding_zone : List Round
  pub injected : List String
  pub token_count : ℤ

-- `_SLIDING_KEEP_ROUNDS`
abbrev pub keep_rounds : ℕ
keep_rounds = 3

-- `__init__`
unfoldable pub new_stm : ℤ → StmManager
new_stm max_tokens = record {
  max_tokens = max_tokens;
  fixed_zone = none;
  sliding_zone = [];
  injected = [];
  token_count = pos 0;
}

-- `s[:n]`
unfoldable pub text_prefix : ℕ → String → String
text_prefix zero s = ""
text_prefix (suc n) String.[] = ""
text_prefix (suc n) (String.◌∷◌ c s) = String.◌∷◌ c (text_prefix n s)

abbrev pub text_of_trigger : Option FixedZone → String
text_of_trigger none = ""
text_of_trigger (some zone) = zone.trigger_text

-- `xs[-3:]`, for more than three rounds
abbrev pub last_rounds : List Round → List Round
last_rounds rounds = drop (length rounds - keep_rounds) rounds

-- The round that stands for `n` earlier ones.
unfoldable pub summary_round : ℕ → Round
unfolding nat_to_text
summary_round n = record {
  name = "_summary";
  args = dict end;
  result =
      dict (
        field "text" (str (concat ("[" ∷ nat_to_text n ∷ " earlier rounds summarized]" ∷ []))) end);
  response = "";
}

abbrev pub call_value : Round → Value
call_value round =
    dict (field "name" (str round.name) (field "args" round.args (field "result" round.result end)))

abbrev pub set_response : String → List Round → List Round
set_response content [] =
    record { name = ""; args = dict end; result = dict end; response = content } ∷ []
set_response content (round ∷ []) = record round { response = content } ∷ []
set_response content (round ∷ next ∷ rest) = round ∷ set_response content (next ∷ rest)

abbrev pub or_default : String → Option String → String
or_default default none = default
or_default default (some s) = if is_empty s then default else s

module _ (count_tokens : String → ℕ) (dumps : Value → String) where
  unfoldable pub injected_tokens : List String → ℕ
  injected_tokens [] = 0
  injected_tokens (instruction ∷ rest) = count_tokens instruction + injected_tokens rest

  unfoldable pub round_tokens : List Round → ℕ
  round_tokens [] = 0
  round_tokens (round ∷ rest) =
      count_tokens (dumps (call_value round)) + count_tokens round.response + round_tokens rest

  -- `_recompute_token_count`
  unfoldable pub recompute_token_count : StmManager → StmManager
  unfolding injected_tokens round_tokens
  recompute_token_count s = record s {
    token_count = pos (
        count_tokens (text_of_trigger s.fixed_zone)
        + injected_tokens s.injected
        + round_tokens s.sliding_zone);
  }

  -- `_compress_if_needed`
  unfoldable pub compress_if_needed : StmManager → StmManager
  unfolding recompute_token_count summary_round
  compress_if_needed s =
      if leb_ℤ s.token_count s.max_tokens
      then s
      else if leb (length s.sliding_zone) keep_rounds
      then s
      else recompute_token_count (record s {
        sliding_zone =
            summary_round (length s.sliding_zone - keep_rounds) ∷ last_rounds s.sliding_zone;
      })

  -- What `add_trigger` writes before it compresses.
  unfoldable pub write_trigger : StmManager → String → Value → Option String → StmManager
  unfolding text_prefix
  write_trigger s trigger_type payload focus =
      let text = concat (
        "Trigger: "
        ∷ trigger_type
        ∷ "\nFocus: "
        ∷ or_default "(none)" focus
        ∷ "\nPayload: "
        ∷ text_prefix 500 (dumps payload)
        ∷ []) in
      record s {
        fixed_zone = some (record {
          trigger_type = trigger_type;
          trigger_payload = payload;
          focus = or_default "" focus;
          trigger_text = text;
        });
        token_count =
            s.token_count
            -ℤ pos (count_tokens (text_of_trigger s.fixed_zone))
            +ℤ pos (count_tokens text);
      }

  -- `add_trigger`
  unfoldable pub add_trigger : StmManager → String → Value → Option String → StmManager
  add_trigger s trigger_type payload focus =
      compress_if_needed (write_trigger s trigger_type payload focus)

  -- What `add_function_call` writes before it compresses.
  unfoldable pub write_function_call : StmManager → String → Value → Value → StmManager
  unfolding text_prefix
  write_function_call s name args result =
      let line = concat (
        "Call: "
        ∷ name
        ∷ " | args: "
        ∷ text_prefix 200 (dumps args)
        ∷ " | result: "
        ∷ text_prefix 300 (dumps result)
        ∷ []) in
      record s {
        sliding_zone =
            s.sliding_zone
            ++ record { name = name; args = args; result = result; response = "" } ∷ [];
        token_count = s.token_count +ℤ pos (count_tokens line);
      }

  -- `add_function_call`
  unfoldable pub add_function_call : StmManager → String → Value → Value → StmManager
  add_function_call s name args result = compress_if_needed (write_function_call s name args result)

  -- What `add_llm_response` writes before it compresses.
  unfoldable pub write_response : StmManager → String → StmManager
  write_response s content = record s {
    sliding_zone = set_response content s.sliding_zone;
    token_count = s.token_count +ℤ pos (count_tokens content);
  }

  -- `add_llm_response`
  unfoldable pub add_llm_response : StmManager → String → StmManager
  add_llm_response s content = compress_if_needed (write_response s content)

  -- What `inject` writes before it compresses.
  unfoldable pub write_injected : StmManager → String → StmManager
  write_injected s instruction = record s {
    injected = s.injected ++ instruction ∷ [];
    token_count = s.token_count +ℤ pos (count_tokens instruction);
  }

  -- `inject`
  unfoldable pub inject : StmManager → String → StmManager
  inject s instruction = compress_if_needed (write_injected s instruction)
