-- ===== src/Governance/Constraints/CircuitBreaker/States.antt =====
-- The states of a circuit: closed, open since a time, half open.
use owlclaw.Base.{
  Bool-cases, Option, String, arith, false, inl, inr, leb, le→leb, ltb, none, pair_eq, refl, some,
  string_eq, string_pair_eq, ℕ, ◌*◌, ◌+◌, ◌≡◌, ◌≢◌, ◌≤◌,
}
use owlclaw.Base.Dict.{get, get-put, get-put_self}
use owlclaw.Governance.Constraints.CircuitBreaker.{
  CircuitBreaker, CircuitState, check_failures, closed, evaluate_circuit, evaluate_entry, half_open,
  on_capability_success, opened, recent_failures, reset_entry, set_state, state_or_closed,
}
use owlclaw.Governance.Ledger.{InMemoryLedger}
use owlclaw.Governance.View.{CapabilityView, RunContext}
use owlclaw.Security.RiskGate.{second}

-- An open circuit knows since when, so that it can recover.
abbrev pub IsTimed : Option (CircuitState × Option ℕ) → Type 0
IsTimed (some (opened, none)) = ⊥
IsTimed _ = Unit

abbrev pub IsSound : CircuitBreaker → Type 0
IsSound breaker = (key : String × String) → IsTimed (get breaker.states key)

set_state-IsSound :
    (breaker : CircuitBreaker) (key : String × String) (state : CircuitState) (since : Option ℕ)
    → IsTimed (some (state, since))
    → IsSound breaker
    → IsSound (set_state breaker key state since)
set_state-IsSound breaker key state since timed h key' = elim (Bool-cases (pair_eq key key')) [
  | inl same ↦ rw (get-put, same) timed
  | inr new ↦ rw (get-put, new) (h key')
]

check_failures-IsSound :
    (breaker : CircuitBreaker) (key : String × String) (now failures : ℕ)
    → IsSound breaker
    → IsSound (check_failures breaker key now failures).1
unfolding check_failures
check_failures-IsSound breaker key now failures h =
    elim (Bool-cases (leb breaker.failure_threshold failures)) [
      | inl e ↦ rw e (set_state-IsSound breaker key opened (some now) tt h)
      | inr e ↦ rw e h
    ]

evaluate_entry-IsSound :
    (breaker : CircuitBreaker) (key : String × String) (now failures : ℕ)
    (entry : CircuitState × Option ℕ)
    → IsSound breaker
    → IsSound (evaluate_entry breaker key now failures entry).1
unfolding evaluate_entry
evaluate_entry-IsSound breaker key now failures (opened, some t) h =
    elim (Bool-cases (ltb (t + breaker.recovery_timeout * second) now)) [
      | inl e ↦ rw e (set_state-IsSound breaker key half_open none tt h)
      | inr e ↦ rw e h
    ]
evaluate_entry-IsSound breaker key now failures (opened, none) h = h
evaluate_entry-IsSound breaker key now failures (closed, t) h =
    check_failures-IsSound breaker key now failures h
evaluate_entry-IsSound breaker key now failures (half_open, t) h =
    check_failures-IsSound breaker key now failures h

-- Every evaluation, and every reported success, keeps the circuits sound.
pub evaluate_circuit-IsSound :
    (breaker : CircuitBreaker) (ledger : InMemoryLedger) (now : ℕ) (capability : CapabilityView)
    (agent_id : String) (context : RunContext)
    → IsSound breaker
    → IsSound (evaluate_circuit breaker ledger now capability agent_id context).1
unfolding evaluate_circuit
evaluate_circuit-IsSound breaker ledger now capability agent_id context h =
    evaluate_entry-IsSound breaker (agent_id, capability.name) now
      (recent_failures breaker ledger context.tenant_id agent_id capability.name) _ h

pub on_capability_success-IsSound :
    (breaker : CircuitBreaker) (agent_id capability_name : String)
    → IsSound breaker
    → IsSound (on_capability_success breaker agent_id capability_name)
unfolding on_capability_success
on_capability_success-IsSound breaker agent_id capability_name h =
    go (get breaker.states (agent_id, capability_name))
  where
    go :
        (entry : Option (CircuitState × Option ℕ))
        → IsSound (reset_entry breaker (agent_id, capability_name) entry)
    go none = h
    go (some entry) = set_state-IsSound breaker (agent_id, capability_name) closed none tt h

-- An open circuit shows its capability exactly if more than the recovery timeout has passed since
-- it opened, whatever the ledger says.
pub evaluate_circuit-opened :
    (breaker : CircuitBreaker) (ledger : InMemoryLedger) (now opened_at : ℕ)
    (capability : CapabilityView) (agent_id : String) (context : RunContext)
    → get breaker.states (agent_id, capability.name) ≡ some (opened, some opened_at)
    → (evaluate_circuit breaker ledger now capability agent_id context).0.visible
      ≡ ltb (opened_at + breaker.recovery_timeout * second) now
unfolding evaluate_circuit
evaluate_circuit-opened breaker ledger now opened_at capability agent_id context e =
    rw e (ground arith)

evaluate_entry_shut :
    (breaker : CircuitBreaker) (key : String × String) (now failures : ℕ)
    (entry : CircuitState × Option ℕ)
    → entry.0 ≢ opened
    → evaluate_entry breaker key now failures entry ≡ check_failures breaker key now failures
unfolding evaluate_entry
evaluate_entry_shut breaker key now failures (opened, t) shut = absurd (shut refl)
evaluate_entry_shut breaker key now failures (closed, t) shut = refl
evaluate_entry_shut breaker key now failures (half_open, t) shut = refl

-- A circuit that is not open asks the ledger.
pub evaluate_circuit_shut :
    (breaker : CircuitBreaker) (ledger : InMemoryLedger) (now : ℕ) (capability : CapabilityView)
    (agent_id : String) (context : RunContext)
    → (state_or_closed (get breaker.states (agent_id, capability.name))).0 ≢ opened
    → evaluate_circuit breaker ledger now capability agent_id context
      ≡ check_failures breaker
          (agent_id, capability.name)
          now
          (recent_failures breaker ledger context.tenant_id agent_id capability.name)
unfolding evaluate_circuit
evaluate_circuit_shut breaker ledger now capability agent_id context shut =
    evaluate_entry_shut breaker (agent_id, capability.name) now _ _ shut

module _ (breaker : CircuitBreaker) (key : String × String) (now failures : ℕ) where
  pub check_failures_hidden :
      (check_failures breaker key now failures).0.visible ≡ false
      → breaker.failure_threshold ≤ failures
  unfolding check_failures
  check_failures_hidden h = ground arith

  pub check_failures_tripped :
      breaker.failure_threshold ≤ failures
      → (check_failures breaker key now failures).0.visible ≡ false
  unfolding check_failures
  check_failures_tripped h = rw (le→leb _ _ h) refl

  check_failures_opens :
      (check_failures breaker key now failures).0.visible ≡ false
      → (check_failures breaker key now failures).1 ≡ set_state breaker key opened (some now)
  unfolding check_failures
  check_failures_opens h = elim (Bool-cases (leb breaker.failure_threshold failures)) [
    | inl e ↦ rw e refl
    | inr e ↦ absurd (cc (rw e at h))
  ]

-- A capability that an evaluation of a circuit that was not open hides stays hidden until the
-- recovery timeout has passed, whatever the ledger and the context are by then.
pub evaluate_circuit_trips :
    (breaker : CircuitBreaker) (ledger ledger' : InMemoryLedger) (now now' : ℕ)
    (capability : CapabilityView) (agent_id : String) (context context' : RunContext)
    → (state_or_closed (get breaker.states (agent_id, capability.name))).0 ≢ opened
    → let (result, breaker') = evaluate_circuit breaker ledger now capability agent_id context in
      result.visible ≡ false
      → (evaluate_circuit breaker' ledger' now' capability agent_id context').0.visible
        ≡ ltb (now + breaker.recovery_timeout * second) now'
evaluate_circuit_trips breaker ledger ledger' now now' capability agent_id context context' shut
      unseen =
    let key : String × String = (agent_id, capability.name) in
    let failures = recent_failures breaker ledger context.tenant_id agent_id capability.name in
    let shape = evaluate_circuit_shut breaker ledger now capability agent_id context shut in
    let trips = check_failures_opens breaker key now failures (rw shape at unseen) in
    rw (shape, trips)
      (evaluate_circuit-opened (set_state breaker key opened (some now)) ledger' now' now capability
        agent_id context' (get-put_self breaker.states key (opened, some now)))
