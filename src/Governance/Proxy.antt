-- ===== src/Governance/Proxy.antt =====
-- owlclaw/governance/proxy.py: `GovernanceProxy`, which guards each call of a language model by a
-- budget, a rate and a circuit for each caller, and records it in its ledger. Amounts are NaN or integers
-- in millionths of a dollar, `monotonic` times microseconds, dates days; a month is counted from a fixed
-- one. `Decimal` of a text, the model and the clocks are arguments.
pub mod Completion
pub mod Traces
pub mod Rate
pub mod Circuits
pub mod HalfOpen
pub mod Audit
pub mod Spending
mod Examples
use owlclaw.Base.{
  Bool, Eq, List, Option, String, [], arith, eq_iff, false, if◌then◌else◌, leb, length, ltb, nat_eq,
  none, some, string_eq, string_pair_eq, suc, true, ℕ, ◌&&◌, ◌*◌, ◌++◌, ◌+◌, ◌==◌, ◌↔◌, ◌∷◌, ◌≡◌,
}
use owlclaw.Base.Dict.{Dict, get, put}
use owlclaw.Base.Int.{leb_ℤ, pos, ℤ, ◌+ℤ◌}
use owlclaw.Governance.Ledger.{InMemoryLedger}
use owlclaw.Security.RiskGate.{second}

pub data CircuitPhase : Type 0 where
  circuit_closed circuit_open circuit_half_open : CircuitPhase

pub record Circuit : Type 0 where
  pub phase : CircuitPhase
  pub consecutive_failures : ℕ
  pub opened_at : ℕ
  pub half_open_calls : ℕ

abbrev pub fresh_circuit : Circuit
fresh_circuit = record {
  phase = circuit_closed;
  consecutive_failures = 0;
  opened_at = 0;
  half_open_calls = 0;
}

-- A `Decimal` that is not infinite.
pub data Dollars : Type 0 where
  usd : ℤ → Dollars
  nan_usd : Dollars

abbrev pub add_dollars : Dollars → Dollars → Dollars
add_dollars (usd a) (usd b) = usd (a +ℤ b)
add_dollars _ _ = nan_usd

-- `a >= b`; `none` is the InvalidOperation that NaN raises.
abbrev pub at_least : Dollars → Dollars → Option Bool
at_least (usd a) (usd b) = some (leb_ℤ b a)
at_least _ _ = none

pub record GovernanceProxy : Type 0 where
  pub daily_limit : Dollars
  pub monthly_limit : Dollars
  pub default_qps : ℕ
  pub per_service_qps : Dict String ℤ
  pub failure_threshold : ℕ
  pub recovery_timeout_seconds : ℕ
  pub half_open_max_calls : ℕ
  pub passthrough_on_error : Bool
  pub tenant_id : String
  pub agent_id : String
  pub daily_usage : Dict (String × ℕ) Dollars
  pub monthly_usage : Dict (String × ℕ) Dollars
  pub rate_windows : Dict String (List ℕ)
  pub circuits : Dict String Circuit
  pub ledger : InMemoryLedger

abbrev pub usage_key_beq : String × ℕ → String × ℕ → Bool
usage_key_beq (a, m) (b, n) = a == b && nat_eq m n

pub usage_key_iff : (p q : String × ℕ) → (usage_key_beq p q ≡ true) ↔ (p ≡ q)
usage_key_iff (a, m) (b, n) = (λ h. ground (arith, eq_iff a b), λ h. ground (arith, eq_iff a b))

instance abbrev pub usage_key_eq : Eq (String × ℕ)
usage_key_eq = record { beq = usage_key_beq; beq_iff = usage_key_iff }

-- What the clocks show at the checks of one call.
pub record Reading : Type 0 where
  pub today : ℕ
  pub month : ℕ
  pub rate_now : ℕ
  pub circuit_now : ℕ

-- How a check ends the gate: a `GovernanceRejectedError` with its reason, or any other exception.
pub data Refusal : Type 0 where
  rejection : String → Refusal
  gate_error : Refusal

-- The refusal, if there is one, and the proxy behind the check.
abbrev pub Verdict : Type 0
Verdict = Option Refusal × GovernanceProxy

abbrev pub amount_or_zero : Option Dollars → Dollars
amount_or_zero none = usd (pos 0)
amount_or_zero (some used) = used

abbrev pub day_used : GovernanceProxy → String → ℕ → Dollars
day_used p caller today = amount_or_zero (get p.daily_usage (caller, today))

abbrev pub month_used : GovernanceProxy → String → ℕ → Dollars
month_used p caller month = amount_or_zero (get p.monthly_usage (caller, month))

-- The refusal of `_check_budget`, behind its two comparisons.
abbrev pub budget_refusal : Option Bool → Option Bool → Option Refusal
budget_refusal none monthly = some gate_error
budget_refusal (some true) monthly = some (rejection "budget_exhausted_daily")
budget_refusal (some false) none = some gate_error
budget_refusal (some false) (some true) = some (rejection "budget_exhausted_monthly")
budget_refusal (some false) (some false) = none

-- `_check_budget`
unfoldable pub check_budget : GovernanceProxy → String → ℕ → ℕ → Verdict
check_budget p caller today month = (
  budget_refusal (at_least (day_used p caller today) p.daily_limit)
      (at_least (month_used p caller month) p.monthly_limit),
  p,
)

abbrev pub qps_or_default : ℕ → Option ℤ → ℤ
qps_or_default default none = pos default
qps_or_default default (some qps) = qps

abbrev pub qps_of : GovernanceProxy → String → ℤ
qps_of p caller = qps_or_default p.default_qps (get p.per_service_qps caller)

abbrev pub window_or_empty : Option (List ℕ) → List ℕ
window_or_empty none = []
window_or_empty (some window) = window

-- `while window and now - window[0] > 1.0: window.popleft()`
unfoldable pub drop_old : ℕ → List ℕ → List ℕ
drop_old now [] = []
drop_old now (t ∷ window) =
    let rest = drop_old now window in if ltb (t + second) now then rest else t ∷ window

-- The test and the window behind it.
unfoldable pub take_slot : ℤ → ℕ → List ℕ → Bool × List ℕ
unfolding drop_old
take_slot qps now window =
    let kept = drop_old now window in
    if leb_ℤ qps (pos (length kept)) then (false, kept) else (true, kept ++ now ∷ [])

-- `_check_rate_limit`
unfoldable pub check_rate_limit : GovernanceProxy → String → ℕ → Verdict
unfolding take_slot
check_rate_limit p caller now =
    let (free, window) =
      take_slot (qps_of p caller) now (window_or_empty (get p.rate_windows caller)) in
    let p' = record p { rate_windows = put p.rate_windows caller window } in
    (if free then none else some (rejection "rate_limited"), p')

abbrev pub circuit_or_fresh : Option Circuit → Circuit
circuit_or_fresh none = fresh_circuit
circuit_or_fresh (some circuit) = circuit

abbrev pub circuit_of : GovernanceProxy → String → Circuit
circuit_of p caller = circuit_or_fresh (get p.circuits caller)

-- The last two tests of `_check_circuit`, in the state "half_open".
abbrev pub try_half_open : ℕ → Circuit → Option Refusal × Circuit
try_half_open most circuit =
    if leb most circuit.half_open_calls
    then (some (rejection "circuit_half_open_limit"), circuit)
    else (none, record circuit { half_open_calls = suc circuit.half_open_calls })

abbrev pub pass_phase : ℕ → ℕ → ℕ → CircuitPhase → Circuit → Option Refusal × Circuit
pass_phase timeout most now circuit_closed circuit = (none, circuit)
pass_phase timeout most now circuit_open circuit =
    if leb (circuit.opened_at + timeout * second) now
    then try_half_open most (record circuit { phase = circuit_half_open; half_open_calls = 0 })
    else (some (rejection "circuit_open"), circuit)
pass_phase timeout most now circuit_half_open circuit = try_half_open most circuit

-- `_check_circuit`
unfoldable pub check_circuit : GovernanceProxy → String → ℕ → Verdict
check_circuit p caller now =
    let circuit = circuit_of p caller in
    let (reason, circuit') =
      pass_phase p.recovery_timeout_seconds p.half_open_max_calls now circuit.phase circuit in
    (reason, record p { circuits = put p.circuits caller circuit' })

abbrev pub then_check : Verdict → (GovernanceProxy → Verdict) → Verdict
then_check (none, p) check = check p
then_check (some refusal, p) check = (some refusal, p)

-- The checks of `acompletion`, in order.
unfoldable pub gate : GovernanceProxy → String → Reading → Verdict
unfolding check_budget check_rate_limit check_circuit
gate p caller reading =
    then_check
      (then_check (check_budget p caller reading.today reading.month)
        (λ p'. check_rate_limit p' caller reading.rate_now))
      (λ p'. check_circuit p' caller reading.circuit_now)

-- `_on_success`
unfoldable pub on_success : GovernanceProxy → String → GovernanceProxy
on_success p caller = record p { circuits = put p.circuits caller fresh_circuit }

abbrev pub failed_circuit : ℕ → ℕ → Circuit → Circuit
failed_circuit threshold now circuit =
    let failures = suc circuit.consecutive_failures in
    if leb threshold failures
    then record {
      phase = circuit_open;
      consecutive_failures = failures;
      opened_at = now;
      half_open_calls = 0;
    }
    else record circuit { consecutive_failures = failures }

-- `_on_failure`
unfoldable pub on_failure : GovernanceProxy → String → ℕ → GovernanceProxy
on_failure p caller now = record p {
  circuits = put p.circuits caller (failed_circuit p.failure_threshold now (circuit_of p caller));
}

-- `_consume_budget`
unfoldable pub consume_budget : GovernanceProxy → String → ℕ → ℕ → Dollars → GovernanceProxy
consume_budget p caller today month cost = record p {
  daily_usage = put p.daily_usage (caller, today) (add_dollars (day_used p caller today) cost);
  monthly_usage =
      put p.monthly_usage (caller, month) (add_dollars (month_used p caller month) cost);
}
