-- ===== src/Signal/State.antt =====
-- owlclaw/triggers/signal/state.py: `AgentStateManager` without a session factory, where the
-- states are kept in memory. The lock makes each method one step. `now` is an argument.
pub mod Bounds
pub mod Consumption
use mathlib.Core.Option
use owlclaw.Base.{
  Bool, List, Option, String, [], false, if◌then◌else◌, keep_if, leb, length, map, none, not, some,
  string_eq, string_pair_eq, strip, true, ℕ, ◌&&◌, ◌++◌, ◌-◌, ◌||◌, ◌∷◌,
}
use owlclaw.Base.Dict.{Dict, get, put}
use owlclaw.Signal.Models.{PendingInstruction, is_expired}

pub record AgentState : Type 0 where
  pub paused : Bool
  pub pending_instructions : List PendingInstruction

pub record AgentStateManager : Type 0 where
  pub max_pending_instructions : ℕ
  pub states : Dict (String × String) AgentState

abbrev pub fresh_state : AgentState
fresh_state = record { paused = false; pending_instructions = [] }

abbrev pub key_of : String → String → String × String
key_of agent_id tenant_id = (strip tenant_id, strip agent_id)

abbrev pub state_or_fresh : Option AgentState → AgentState
state_or_fresh none = fresh_state
state_or_fresh (some state) = state

-- The state that `self._states.setdefault(key, AgentState())` returns.
unfoldable pub state_of : AgentStateManager → String → String → AgentState
state_of m agent_id tenant_id = state_or_fresh (get m.states (key_of agent_id tenant_id))

unfoldable pub store_state : AgentStateManager → String → String → AgentState → AgentStateManager
store_state m agent_id tenant_id state = record m {
  states = put m.states (key_of agent_id tenant_id) state;
}

-- `_get_in_memory`
unfoldable pub get_state : AgentStateManager → String → String → AgentStateManager × AgentState
get_state m agent_id tenant_id =
    let state = state_of m agent_id tenant_id in (store_state m agent_id tenant_id state, state)

-- `_set_paused_in_memory`
unfoldable pub set_paused : AgentStateManager → String → String → Bool → AgentStateManager
set_paused m agent_id tenant_id paused =
    store_state m agent_id tenant_id (record (state_of m agent_id tenant_id) { paused = paused })

-- `xs.pop(0)`; `none` is its IndexError.
abbrev pub pop_first : List PendingInstruction → Option (List PendingInstruction)
pop_first [] = none
pop_first (x ∷ xs) = some xs

-- The list that `_add_instruction_in_memory` leaves; `none` is the IndexError of `pop`.
unfoldable pub push_instruction :
    ℕ → List PendingInstruction → PendingInstruction → Option (List PendingInstruction)
push_instruction most items instruction =
    Option.map (λ kept. kept ++ instruction ∷ [])
      (if leb most (length items) then pop_first items else some items)

-- `_add_instruction_in_memory`
unfoldable pub add_instruction :
    AgentStateManager → String → String → PendingInstruction → Option AgentStateManager
unfolding push_instruction
add_instruction m agent_id tenant_id instruction =
    let state = state_of m agent_id tenant_id in
    Option.map
      (λ items. store_state m agent_id tenant_id (record state { pending_instructions = items }))
      (push_instruction m.max_pending_instructions state.pending_instructions instruction)

-- An instruction that can still be delivered.
abbrev pub is_live : ℕ → PendingInstruction → Bool
is_live now instruction = not instruction.consumed && not (is_expired now instruction)

-- The mark that the first loop of `_consume_instructions_in_memory` leaves on an instruction.
unfoldable pub mark : ℕ → PendingInstruction → PendingInstruction
mark now instruction =
    if instruction.consumed || is_expired now instruction
    then instruction
    else record instruction { consumed = true }

-- The instructions that the first loop collects, marked.
unfoldable pub collect_consumed : ℕ → List PendingInstruction → List PendingInstruction
collect_consumed now [] = []
collect_consumed now (instruction ∷ rest) =
    let more = collect_consumed now rest in
    if instruction.consumed || is_expired now instruction then more else mark now instruction ∷ more

-- `_consume_instructions_in_memory`
unfoldable pub consume_instructions :
    AgentStateManager → String → String → ℕ → AgentStateManager × List PendingInstruction
unfolding mark collect_consumed
consume_instructions m agent_id tenant_id now =
    let state = state_of m agent_id tenant_id in
    let marked = map (mark now) state.pending_instructions in
    (
      store_state m agent_id tenant_id
          (record state { pending_instructions = keep_if (is_live now) marked }),
      collect_consumed now state.pending_instructions,
    )

-- `_cleanup_expired_in_memory`
unfoldable pub cleanup_expired : AgentStateManager → String → String → ℕ → AgentStateManager × ℕ
cleanup_expired m agent_id tenant_id now =
    let state = state_of m agent_id tenant_id in
    let kept = keep_if (is_live now) state.pending_instructions in
    (
      store_state m agent_id tenant_id (record state { pending_instructions = kept }),
      length state.pending_instructions - length kept,
    )
