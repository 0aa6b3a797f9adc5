-- ===== src/Signal/State/Consumption.antt =====
-- Consuming delivers every live instruction once.
use owlclaw.Base.{List, String, [], arith, keep_if, map, refl, ℕ, ◌∷◌, ◌≡◌}
use owlclaw.Signal.Models.{PendingInstruction}
use owlclaw.Signal.State.{
  AgentStateManager, collect_consumed, consume_instructions, is_live, mark, state_of,
}
use owlclaw.Signal.State.Bounds.{state-store_state_self}

kept_none :
    (now : ℕ) (items : List PendingInstruction) → keep_if (is_live now) (map (mark now) items) ≡ []
unfolding mark
kept_none now [] = refl
kept_none now (x ∷ xs) = ground (arith, kept_none now xs)

collect_consumed-keep_if :
    (now : ℕ) (items : List PendingInstruction)
    → collect_consumed now items ≡ map (mark now) (keep_if (is_live now) items)
unfolding collect_consumed mark
collect_consumed-keep_if now [] = refl
collect_consumed-keep_if now (x ∷ xs) = ground (arith, collect_consumed-keep_if now xs)

-- Consuming returns the instructions that are neither consumed nor expired, in order and marked as
-- consumed, and leaves no instruction pending.
pub consume_instructions_lem :
    (m : AgentStateManager) (agent_id tenant_id : String) (now : ℕ)
    → let (m', consumed) = consume_instructions m agent_id tenant_id now in
      (consumed
        ≡ map
            (mark now)
            (keep_if (is_live now) (state_of m agent_id tenant_id).pending_instructions))
      × ((state_of m' agent_id tenant_id).pending_instructions ≡ [])
unfolding consume_instructions
consume_instructions_lem m agent_id tenant_id now = (
  collect_consumed-keep_if now (state_of m agent_id tenant_id).pending_instructions,
  rw state-store_state_self (kept_none now (state_of m agent_id tenant_id).pending_instructions),
)

-- No instruction is delivered twice: a second call, at whatever time, returns nothing.
pub consume_instructions_once :
    (m : AgentStateManager) (agent_id tenant_id : String) (now later : ℕ)
    → (consume_instructions
        (consume_instructions m agent_id tenant_id now).0
        agent_id
        tenant_id
        later).1
      ≡ []
unfolding consume_instructions
consume_instructions_once m agent_id tenant_id now later =
    rw ((consume_instructions_lem m agent_id tenant_id now).1) refl
