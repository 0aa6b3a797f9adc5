-- ===== src/Signal/State/Bounds.antt =====
-- The bound on the pending instructions of an agent, and which of them the bound drops.
use mathlib.Core.Option
use owlclaw.Base.{
  Bool, Bool-cases, List, String, [], ap, arith, drop, false, if◌then◌else◌, inl, inr, leb, length,
  length-append, length-drop, none, pair_eq, pair_eq_iff, refl, some, string_eq, string_pair_eq,
  true, ℕ, ◌++◌, ◌+◌, ◌-◌, ◌<◌, ◌∙◌, ◌∷◌, ◌≡◌, ◌≤◌,
}
use owlclaw.Base.Dict.{get, get-put}
use owlclaw.Signal.Models.{PendingInstruction}
use owlclaw.Signal.State.{
  AgentState, AgentStateManager, add_instruction, key_of, pop_first, push_instruction, state_of,
  state_or_fresh, store_state,
}

-- With a positive bound, an agent has at most that many pending instructions.
pub record IsBounded (m : AgentStateManager) : Type 0 where
  pub positive : 0 < m.max_pending_instructions
  pub fits :
      (agent_id tenant_id : String)
      → length (state_of m agent_id tenant_id).pending_instructions ≤ m.max_pending_instructions

-- Reading a state behind a write: the written one for the same agent and tenant, up to blanks
-- around their names, and the old one for any other.
pub state-store_state :
    (m : AgentStateManager) (agent_id tenant_id agent tenant : String) (state : AgentState)
    → state_of (store_state m agent_id tenant_id state) agent tenant ≡ (
        if pair_eq (key_of agent_id tenant_id) (key_of agent tenant)
        then state
        else state_of m agent tenant)
unfolding state_of store_state
state-store_state m agent_id tenant_id agent tenant state =
    rw get-put (go (pair_eq (key_of agent_id tenant_id) (key_of agent tenant)))
  where
    go :
        (b : Bool)
        → state_or_fresh (if b then some state else get m.states (key_of agent tenant))
          ≡ (if b then state else state_or_fresh (get m.states (key_of agent tenant)))
    go true = refl
    go false = refl

pub state-store_state_self :
    (m : AgentStateManager) (agent_id tenant_id : String) (state : AgentState)
    → state_of (store_state m agent_id tenant_id state) agent_id tenant_id ≡ state
state-store_state_self m agent_id tenant_id state =
    state-store_state m agent_id tenant_id agent_id tenant_id state
    ∙ rw ((pair_eq_iff (key_of agent_id tenant_id) (key_of agent_id tenant_id)).1 refl) refl

store_state-IsBounded :
    (m : AgentStateManager) (agent_id tenant_id : String) (state : AgentState)
    → IsBounded m
    → length state.pending_instructions ≤ m.max_pending_instructions
    → IsBounded (store_state m agent_id tenant_id state)
store_state-IsBounded m agent_id tenant_id state h fits = record {
  positive = unfold store_state in h.positive;
  fits = λ agent tenant.
      rw state-store_state
        (either (pair_eq (key_of agent_id tenant_id) (key_of agent tenant)) agent tenant);
}
  where
    either :
        (b : Bool) (agent tenant : String)
        → length (if b then state else state_of m agent tenant).pending_instructions
          ≤ (store_state m agent_id tenant_id state).max_pending_instructions
    either true agent tenant = unfold store_state in fits
    either false agent tenant = unfold store_state in h.fits agent tenant

-- The last `most` of the items behind the new one.
abbrev pub newest : ℕ → List PendingInstruction → List PendingInstruction
newest most items = drop (length items - most) items

push_instruction-newest :
    (most : ℕ) (items : List PendingInstruction) (instruction : PendingInstruction)
    → 0 < most
    → length items ≤ most
    → push_instruction most items instruction ≡ some (newest most (items ++ instruction ∷ []))
unfolding push_instruction
push_instruction-newest most items instruction h k = elim (Bool-cases (leb most (length items))) [
  | inr room ↦ rw (room, length-append, no_excess (length items) most room) refl
  | inl full ↦ rw (full, length-append, one_excess (length items) most full k) (go items full)
]
  where
    no_excess : (n most : ℕ) → leb most n ≡ false → n + 1 - most ≡ 0
    no_excess n most e = ground arith

    one_excess : (n most : ℕ) → leb most n ≡ true → n ≤ most → n + 1 - most ≡ 1
    one_excess n most e l = ground arith

    go :
        (items : List PendingInstruction)
        → leb most (length items) ≡ true
        → Option.map (λ kept. kept ++ instruction ∷ []) (pop_first items)
          ≡ some (drop 1 (items ++ instruction ∷ []))
    go [] e = absurd (ground arith)
    go (x ∷ xs) e = refl

-- With a positive bound an instruction is always accepted: the agent then has its old pending
-- instructions and the new one, the oldest dropped where these are more than the bound, and all
-- agents stay within the bound.
pub add_instruction-newest :
    (m : AgentStateManager) (agent_id tenant_id : String) (instruction : PendingInstruction)
    → IsBounded m
    → (m' : AgentStateManager) × (add_instruction m agent_id tenant_id instruction ≡ some m')
      × IsBounded m'
      × ((state_of m' agent_id tenant_id).pending_instructions
          ≡ newest m.max_pending_instructions
              ((state_of m agent_id tenant_id).pending_instructions ++ instruction ∷ []))
unfolding add_instruction
add_instruction-newest m agent_id tenant_id instruction h =
    let state = state_of m agent_id tenant_id in
    let items =
      newest m.max_pending_instructions (state.pending_instructions ++ instruction ∷ []) in
    let state' : AgentState = record state { pending_instructions = items } in
    (
      store_state m agent_id tenant_id state',
      rw
          (push_instruction-newest m.max_pending_instructions state.pending_instructions instruction
            h.positive (h.fits agent_id tenant_id))
          refl,
      store_state-IsBounded m agent_id tenant_id state' h (
          omega (
            arith,
            length-drop
                (length (state.pending_instructions ++ instruction ∷ [])
                  - m.max_pending_instructions)
                (state.pending_instructions ++ instruction ∷ []),
          )),
      ap (λ (s : AgentState). s.pending_instructions)
          (state-store_state_self m agent_id tenant_id state'),
    )

-- With the bound 0 no instruction is ever accepted by an agent that has none pending: `pop` raises.
pub add_instruction_zero :
    (m : AgentStateManager) (agent_id tenant_id : String) (instruction : PendingInstruction)
    → m.max_pending_instructions ≡ 0
    → (state_of m agent_id tenant_id).pending_instructions ≡ []
    → add_instruction m agent_id tenant_id instruction ≡ none
unfolding add_instruction push_instruction
add_instruction_zero m agent_id tenant_id instruction e e' = rw (e', e) refl
