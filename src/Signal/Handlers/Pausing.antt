-- ===== src/Signal/Handlers/Pausing.antt =====
-- What pausing and resuming leave in the states of the agents.
use owlclaw.Base.{
  Bool, Bool-cases, Option, String, ap, false, inl, inr, pair_eq, pair_eq_iff, refl, true, ℕ, ◌∙◌,
  ◌≡◌, ◌≢◌,
}
use owlclaw.Signal.Handlers.{handle_pause, handle_resume}
use owlclaw.Signal.Models.{Signal}
use owlclaw.Signal.State.{
  AgentState, AgentStateManager, get_state, key_of, set_paused, state_of, store_state,
}
use owlclaw.Signal.State.Bounds.{state-store_state, state-store_state_self}

-- `m'` is `m` but for the flag of one agent.
pub record SetsPaused (paused : Bool) (agent_id tenant_id : String) (m m' : AgentStateManager)
    : Type 0 where
  pub own :
      state_of m' agent_id tenant_id ≡ record (state_of m agent_id tenant_id) { paused = paused }
  pub others :
      (agent tenant : String)
      → key_of agent_id tenant_id ≢ key_of agent tenant
      → state_of m' agent tenant ≡ state_of m agent tenant

pair_eq-ne : (p q : String × String) → p ≢ q → pair_eq p q ≡ false
pair_eq-ne p q h = elim (Bool-cases (pair_eq p q)) [
  | inl e ↦ absurd (h ((pair_eq_iff p q).0 e))
  | inr e ↦ e
]

state-store_state_ne :
    (m : AgentStateManager) (agent_id tenant_id agent tenant : String) (state : AgentState)
    → key_of agent_id tenant_id ≢ key_of agent tenant
    → state_of (store_state m agent_id tenant_id state) agent tenant ≡ state_of m agent tenant
state-store_state_ne m agent_id tenant_id agent tenant state h =
    state-store_state m agent_id tenant_id agent tenant state ∙ rw (pair_eq-ne _ _ h) refl

get_state-same :
    (m : AgentStateManager) (agent_id tenant_id : String) (paused : Bool)
    → (state_of m agent_id tenant_id).paused ≡ paused
    → SetsPaused paused agent_id tenant_id m (get_state m agent_id tenant_id).0
unfolding get_state
get_state-same m agent_id tenant_id paused e = record {
  own =
      state-store_state_self m agent_id tenant_id _
      ∙ ap (λ p. record (state_of m agent_id tenant_id) { paused = p }) e;
  others = λ agent tenant h. state-store_state_ne m agent_id tenant_id agent tenant _ h;
}

set_paused-SetsPaused :
    (m : AgentStateManager) (agent_id tenant_id : String) (paused : Bool)
    → SetsPaused paused agent_id tenant_id m
        (set_paused (get_state m agent_id tenant_id).0 agent_id tenant_id paused)
unfolding get_state set_paused
set_paused-SetsPaused m agent_id tenant_id paused = record {
  own =
      state-store_state_self _ agent_id tenant_id _
      ∙ ap (λ (s : AgentState). record s { paused = paused })
          (state-store_state_self m agent_id tenant_id _);
  others = λ agent tenant h.
      state-store_state_ne _ agent_id tenant_id agent tenant _ h
      ∙ state-store_state_ne m agent_id tenant_id agent tenant _ h;
}

pub handle_pause-SetsPaused :
    (on_pause : Option (Signal → Bool)) (now : ℕ) (signal : Signal) (m : AgentStateManager)
    → SetsPaused true signal.agent_id signal.tenant_id m (handle_pause on_pause now signal m).1
unfolding handle_pause
handle_pause-SetsPaused on_pause now signal m =
    elim (Bool-cases (get_state m signal.agent_id signal.tenant_id).1.paused) [
      | inl e ↦
          rw e (get_state-same m signal.agent_id signal.tenant_id true (unfold get_state in e))
      | inr e ↦ rw e (set_paused-SetsPaused m signal.agent_id signal.tenant_id true)
    ]

pub handle_resume-SetsPaused :
    (on_resume : Option (Signal → Bool)) (now : ℕ) (signal : Signal) (m : AgentStateManager)
    → SetsPaused false signal.agent_id signal.tenant_id m (handle_resume on_resume now signal m).1
unfolding handle_resume
handle_resume-SetsPaused on_resume now signal m =
    elim (Bool-cases (get_state m signal.agent_id signal.tenant_id).1.paused) [
      | inl e ↦ rw e (set_paused-SetsPaused m signal.agent_id signal.tenant_id false)
      | inr e ↦
          rw e (get_state-same m signal.agent_id signal.tenant_id false (unfold get_state in e))
    ]
