-- ===== src/Governance/Proxy/Traces.antt =====
-- owlclaw/governance/proxy.py: what the calls of a proxy do to its state, one after the other, however
-- they overlap: a call asks at the gate and, if it is let in, comes back later or never.
use owlclaw.Base.{
  All, Bool-cases, List, Option, String, [], ap, eq_iff, false, if◌then◌else◌, inl, inr, none, refl,
  some, string_eq, string_pair_eq, true, ℕ, ◌==◌, ◌∙◌, ◌∷◌, ◌≡◌,
}
use owlclaw.Base.Dict.{get-put, put}
use owlclaw.Governance.Proxy.{
  Circuit, Dollars, GovernanceProxy, Reading, Refusal, Verdict, check_budget, check_circuit,
  check_rate_limit, circuit_of, consume_budget, failed_circuit, fresh_circuit, gate, on_failure,
  on_success, pass_phase, rejection, then_check,
}

pub data ProxyEvent : Type 0 where
  asks : String → Reading → ProxyEvent
  answers : String → ℕ → ℕ → Dollars → ProxyEvent
  fails : String → ℕ → ProxyEvent

unfoldable pub perform : GovernanceProxy → ProxyEvent → GovernanceProxy
unfolding gate consume_budget on_success on_failure
perform p (asks caller reading) = (gate p caller reading).1
perform p (answers caller today month cost) =
    on_success (consume_budget p caller today month cost) caller
perform p (fails caller now) = on_failure p caller now

unfoldable pub perform_all : GovernanceProxy → List ProxyEvent → GovernanceProxy
unfolding perform
perform_all p [] = p
perform_all p (event ∷ events) = perform_all (perform p event) events

-- No call of `caller` comes back, and it asks only at times that are admitted.
abbrev pub IsSilent : String → (ℕ → Type 0) → ProxyEvent → Type 0
IsSilent caller Admitted (asks asking reading) =
    (asking == caller) ≡ true → Admitted reading.circuit_now
IsSilent caller Admitted (answers asking today month cost) = (asking == caller) ≡ false
IsSilent caller Admitted (fails asking now) = (asking == caller) ≡ false

pub circuit_of-put :
    (p : GovernanceProxy) (asking caller : String) (circuit : Circuit)
    → circuit_of (record p { circuits = put p.circuits asking circuit }) caller
      ≡ (if asking == caller then circuit else circuit_of p caller)
circuit_of-put p asking caller circuit = elim (Bool-cases (asking == caller)) [
  | inl same ↦ rw (get-put p.circuits asking caller circuit, same) refl
  | inr distinct ↦ rw (get-put p.circuits asking caller circuit, distinct) refl
]

pub then_check-keeps :
    (P : GovernanceProxy → Type 0) (v : Verdict) (check : GovernanceProxy → Verdict)
    → P v.1
    → ((p : GovernanceProxy) → P p → P (check p).1)
    → P (then_check v check).1
then_check-keeps P (none, p) check h k = k p h
then_check-keeps P (some refusal, p) check h k = h

then_check_refuses :
    (P : GovernanceProxy → Type 0) (v : Verdict) (check : GovernanceProxy → Verdict)
    → P v.1
    → ((p : GovernanceProxy) → P p → (refusal : Refusal) × ((check p).0 ≡ some refusal))
    → (refusal : Refusal) × ((then_check v check).0 ≡ some refusal)
then_check_refuses P (none, p) check h k = k p h
then_check_refuses P (some refusal, p) check h k = (refusal, refl)

-- A circuit `c` that turns a call away at every admitted time, and stays as it is.
module _ (caller : String) (Admitted : ℕ → Type 0) (c : Circuit) (timeout most : ℕ)
    (reason : String)
    (blocks : (now : ℕ)
      → Admitted now
      → pass_phase timeout most now c.phase c ≡ (some (rejection reason), c)) where
  abbrev pub IsShut : GovernanceProxy → Type 0
  IsShut p =
      (circuit_of p caller ≡ c)
      × (p.recovery_timeout_seconds ≡ timeout)
      × (p.half_open_max_calls ≡ most)

  put-IsShut :
      (p : GovernanceProxy) (asking : String) (circuit : Circuit)
      → ((asking == caller) ≡ true → circuit ≡ c)
      → IsShut p
      → IsShut (record p { circuits = put p.circuits asking circuit })
  put-IsShut p asking circuit same (shut, waits, bound) = (
    circuit_of-put p asking caller circuit
        ∙ elim (Bool-cases (asking == caller)) [ inl e ↦ rw e (same e) | inr e ↦ rw e shut ],
    waits,
    bound,
  )

  passes :
      (p : GovernanceProxy) (now : ℕ)
      → Admitted now
      → IsShut p
      → pass_phase p.recovery_timeout_seconds p.half_open_max_calls now
          (circuit_of p caller).phase
          (circuit_of p caller)
        ≡ (some (rejection reason), c)
  passes p now admitted (shut, waits, bound) =
      ap
        (λ (d : Circuit). pass_phase p.recovery_timeout_seconds p.half_open_max_calls now d.phase d)
        shut
      ∙ rw (waits, bound) (blocks now admitted)

  check_circuit-IsShut :
      (p : GovernanceProxy) (asking : String) (now : ℕ)
      → ((asking == caller) ≡ true → Admitted now)
      → IsShut p
      → IsShut (check_circuit p asking now).1
  unfolding check_circuit
  check_circuit-IsShut p asking now admitted h =
      put-IsShut p asking
        (pass_phase p.recovery_timeout_seconds p.half_open_max_calls now (circuit_of p asking).phase
          (circuit_of p asking)).1
        (λ same.
          let equal : asking ≡ caller = (eq_iff asking caller).0 same in
          rw equal (ap (λ (v : Option Refusal × Circuit). v.1) (passes p now (admitted same) h)))
        h

  perform-IsShut :
      (p : GovernanceProxy) (event : ProxyEvent)
      → IsSilent caller Admitted event
      → IsShut p
      → IsShut (perform p event)
  unfolding perform gate check_rate_limit check_budget on_success on_failure consume_budget
  perform-IsShut p (asks asking reading) quiet h =
      let budget = check_budget p asking reading.today reading.month in
      let rate = then_check budget (λ q. check_rate_limit q asking reading.rate_now) in
      then_check-keeps IsShut rate (λ q. check_circuit q asking reading.circuit_now)
        (then_check-keeps IsShut budget (λ q. check_rate_limit q asking reading.rate_now) h
          (λ q k. k))
        (λ q k. check_circuit-IsShut q asking reading.circuit_now quiet k)
  perform-IsShut p (answers asking today month cost) quiet h =
      put-IsShut p asking fresh_circuit (λ same. absurd (cc)) h
  perform-IsShut p (fails asking now) quiet h =
      put-IsShut p asking (failed_circuit p.failure_threshold now (circuit_of p asking))
        (λ same. absurd (cc)) h

  pub perform_all-IsShut :
      (events : List ProxyEvent) (p : GovernanceProxy)
      → All (IsSilent caller Admitted) events
      → IsShut p
      → IsShut (perform_all p events)
  unfolding perform_all
  perform_all-IsShut [] p quiet h = h
  perform_all-IsShut (event ∷ events) p (first_quiet, quiet) h =
      perform_all-IsShut events (perform p event) quiet (perform-IsShut p event first_quiet h)

  pub check_circuit_shut :
      (p : GovernanceProxy) (now : ℕ)
      → Admitted now
      → IsShut p
      → (check_circuit p caller now).0 ≡ some (rejection reason)
  unfolding check_circuit
  check_circuit_shut p now admitted h =
      ap (λ (v : Option Refusal × Circuit). v.0) (passes p now admitted h)

  pub gate_shut :
      (p : GovernanceProxy) (reading : Reading)
      → Admitted reading.circuit_now
      → IsShut p
      → (refusal : Refusal) × ((gate p caller reading).0 ≡ some refusal)
  unfolding gate check_rate_limit check_budget
  gate_shut p reading admitted h =
      let budget = check_budget p caller reading.today reading.month in
      let rate = then_check budget (λ q. check_rate_limit q caller reading.rate_now) in
      then_check_refuses IsShut rate (λ q. check_circuit q caller reading.circuit_now)
        (then_check-keeps IsShut budget (λ q. check_rate_limit q caller reading.rate_now) h
          (λ q k. k))
        (λ q k. (rejection reason, check_circuit_shut q reading.circuit_now admitted k))
