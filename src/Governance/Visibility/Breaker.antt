-- ===== src/Governance/Visibility/Breaker.antt =====
-- owlclaw/governance/constraints/circuit_breaker.py as an evaluator of
-- owlclaw/governance/visibility.py, among evaluators that do not touch its circuits.
use owlclaw.Base.{
  All, All-append, Bool-cases, List, Option, String, [], ap, arith, false, inl, inr, leb, ltb, map,
  none, pair_eq, pair_eq_iff, refl, some, string_eq, string_pair_eq, ℕ, ◌*◌, ◌++◌, ◌+◌, ◌∷◌, ◌≡◌,
  ◌≢◌, ◌≤◌,
}
use owlclaw.Base.Dict.{get, get-put}
use owlclaw.Governance.Constraints.CircuitBreaker.{
  CircuitBreaker, CircuitState, check_failures, closed, evaluate_circuit, evaluate_entry, half_open,
  opened, recent_failures, set_state,
}
use owlclaw.Governance.Ledger.{InMemoryLedger}
use owlclaw.Governance.View.{CapabilityView, FilterResult, RunContext, hidden}
use owlclaw.Governance.Visibility.{
  Draw, Evaluator, FilterState, VisibilityFilter, filter_capabilities, returned,
}
use owlclaw.Governance.Visibility.Stateful.{RefusesWhile, Stays, filter_capabilities_refused}
use owlclaw.Security.RiskGate.{second}

-- The circuit of `key` opened at `opened_at`, and recovers behind `timeout` seconds.
abbrev pub IsOpen : String × String → ℕ → ℕ → CircuitBreaker → Type 0
IsOpen key opened_at timeout breaker =
    (get breaker.states key ≡ some (opened, some opened_at)) × (breaker.recovery_timeout ≡ timeout)

module _ (key' : String × String) (opened_at timeout : ℕ) where
  set_state-IsOpen :
      (breaker : CircuitBreaker) (key : String × String) (state : CircuitState) (since : Option ℕ)
      → pair_eq key key' ≡ false
      → IsOpen key' opened_at timeout breaker
      → IsOpen key' opened_at timeout (set_state breaker key state since)
  set_state-IsOpen breaker key state since elsewhere (is_open, same) =
      (rw (get-put, elsewhere) is_open, same)

  check_failures-IsOpen :
      (breaker : CircuitBreaker) (key : String × String) (now failures : ℕ)
      → pair_eq key key' ≡ false
      → IsOpen key' opened_at timeout breaker
      → IsOpen key' opened_at timeout (check_failures breaker key now failures).1
  unfolding check_failures
  check_failures-IsOpen breaker key now failures elsewhere h =
      elim (Bool-cases (leb breaker.failure_threshold failures)) [
        | inl e ↦ rw e (set_state-IsOpen breaker key opened (some now) elsewhere h)
        | inr e ↦ rw e h
      ]

  -- The evaluation of another capability leaves the circuit open.
  evaluate_entry-IsOpen :
      (breaker : CircuitBreaker) (key : String × String) (now failures : ℕ)
      (entry : CircuitState × Option ℕ)
      → pair_eq key key' ≡ false
      → IsOpen key' opened_at timeout breaker
      → IsOpen key' opened_at timeout (evaluate_entry breaker key now failures entry).1
  unfolding evaluate_entry
  evaluate_entry-IsOpen breaker key now failures (opened, some t) elsewhere h =
      elim (Bool-cases (ltb (t + breaker.recovery_timeout * second) now)) [
        | inl e ↦ rw e (set_state-IsOpen breaker key half_open none elsewhere h)
        | inr e ↦ rw e h
      ]
  evaluate_entry-IsOpen breaker key now failures (opened, none) elsewhere h = h
  evaluate_entry-IsOpen breaker key now failures (closed, t) elsewhere h =
      check_failures-IsOpen breaker key now failures elsewhere h
  evaluate_entry-IsOpen breaker key now failures (half_open, t) elsewhere h =
      check_failures-IsOpen breaker key now failures elsewhere h

  evaluate_entry_waits :
      (breaker : CircuitBreaker) (key : String × String) (now failures : ℕ)
      → breaker.recovery_timeout ≡ timeout
      → now ≤ opened_at + timeout * second
      → evaluate_entry breaker key now failures (opened, some opened_at)
        ≡ (hidden "Circuit open (capability recently failed)", breaker)
  unfolding evaluate_entry
  evaluate_entry_waits breaker key now failures same early =
      let waits : ltb (opened_at + timeout * second) now ≡ false = ground arith in
      rw (same, waits) refl

-- `evaluator` beside the circuits, which it neither reads nor writes.
abbrev pub beside : {V : Type 0} → Evaluator V → Evaluator (CircuitBreaker × V)
beside evaluator view agent_id context (breaker, v) =
    let (outcome, v') = evaluator view agent_id context v in (outcome, (breaker, v'))

-- `evaluate` of the constraint, which asks the clock and the ledger.
abbrev pub breaker_evaluator :
    {V : Type 0} → (V → ℕ) → (V → InMemoryLedger) → Evaluator (CircuitBreaker × V)
breaker_evaluator now ledger view agent_id context (breaker, v) =
    let (result, breaker') = evaluate_circuit breaker (ledger v) (now v) view agent_id context in
    (returned result, (breaker', v))

module _ {V : Type 0} (now : V → ℕ) (ledger : V → InMemoryLedger) (agent_id name : String)
    (opened_at timeout : ℕ) (early : (v : V) → now v ≤ opened_at + timeout * second)
    (context : RunContext) where
  abbrev Waits : CircuitBreaker × V → Type 0
  Waits (breaker, v) = IsOpen (agent_id, name) opened_at timeout breaker

  evaluate_waits :
      (view : CapabilityView) (breaker : CircuitBreaker) (v : V)
      → view.name ≡ name
      → IsOpen (agent_id, name) opened_at timeout breaker
      → evaluate_circuit breaker (ledger v) (now v) view agent_id context
        ≡ (hidden "Circuit open (capability recently failed)", breaker)
  unfolding evaluate_circuit
  evaluate_waits view breaker v same (is_open, t) =
      rw (same, is_open)
        (evaluate_entry_waits (agent_id, name) opened_at timeout breaker (agent_id, name) (now v)
          (recent_failures breaker (ledger v) context.tenant_id agent_id name) t (early v))

  breaker-refuses : RefusesWhile Waits name agent_id context (breaker_evaluator now ledger)
  breaker-refuses view (breaker, v) same h =
      let e = evaluate_waits view breaker v same h in
      (
        hidden "Circuit open (capability recently failed)",
        ap (λ (r : FilterResult × CircuitBreaker). returned r.0) e,
        refl,
      )

  breaker-Stays : Stays Waits agent_id context (breaker_evaluator now ledger)
  unfolding evaluate_circuit
  breaker-Stays view (breaker, v) h =
      elim (Bool-cases (pair_eq (agent_id, view.name) (agent_id, name))) [
        | inl same ↦
            rw
              (evaluate_waits view breaker v
                (ap (λ (p : String × String). p.1)
                  ((pair_eq_iff (agent_id, view.name) (agent_id, name)).0 same))
                h)
              h
        | inr elsewhere ↦
            evaluate_entry-IsOpen (agent_id, name) opened_at timeout breaker (agent_id, view.name)
              (now v) _ _ elsewhere h
      ]

  beside-Stays :
      (evaluators : List (Evaluator V)) → All (Stays Waits agent_id context) (map beside evaluators)
  beside-Stays [] = tt
  beside-Stays (evaluator ∷ rest) = ((λ view w h. h), beside-Stays rest)

  -- While a circuit is open and its recovery timeout has not passed, no result of
  -- `filter_capabilities` holds its capability, under either fail policy and whatever the risk gate
  -- and the other evaluators answer, which do not touch the circuits; and the circuit stays open.
  pub filter_capabilities_breaks :
      (f : VisibilityFilter (CircuitBreaker × V)) (before after : List (Evaluator V))
      (draw : ℕ → Draw) (entries : List (Option CapabilityView))
      (s : FilterState (CircuitBreaker × V))
      → f.evaluators ≡ map beside before ++ breaker_evaluator now ledger ∷ map beside after
      → IsOpen (agent_id, name) opened_at timeout s.world.0
      → All (λ view. view.name ≢ name) (filter_capabilities f agent_id context draw entries s).0
        × IsOpen
            (agent_id, name)
            opened_at
            timeout
            (filter_capabilities f agent_id context draw entries s).1.world.0
  filter_capabilities_breaks f before after draw entries s listed h =
      filter_capabilities_refused Waits agent_id context f
        (rw listed (
          All-append (Stays Waits agent_id context) (map beside before)
            (breaker_evaluator now ledger ∷ map beside after) (beside-Stays before)
            (breaker-Stays, beside-Stays after)))
        (map beside before) (breaker_evaluator now ledger) (map beside after) name draw entries s
        listed (beside-Stays before) breaker-refuses h
