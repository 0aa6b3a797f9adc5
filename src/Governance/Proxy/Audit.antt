-- ===== src/Governance/Proxy/Audit.antt =====
-- owlclaw/governance/proxy.py: what each call of `acompletion` leaves in the ledger.
use owlclaw.Base.{
  Bool-cases, Option, String, [], ap, arith, drop, false, inl, inr, is_empty, length, length-append,
  ltb, nat_eq, none, refl, some, strip, ℕ, ◌++◌, ◌+◌, ◌-◌, ◌<◌, ◌∙◌, ◌∷◌, ◌≡◌, ◌≤◌,
}
use owlclaw.Base.Int.{pos}
use owlclaw.Base.Value.{Value, dict, end, field, null, str}
use owlclaw.Governance.Ledger.{
  InMemoryLedger, InMemoryRecord, append_record, build_record, last_records, record_execution,
  require_text,
}
use owlclaw.Governance.Proxy.{
  Dollars, GovernanceProxy, Reading, Refusal, check_budget, check_circuit, check_rate_limit,
  consume_budget, gate, gate_error, on_failure, on_success, rejection, then_check, usd,
}
use owlclaw.Governance.Proxy.Completion.{
  Call, Completion, LlmOutcome, acompletion, behind_gate, call_failed, completed, estimate_cost,
  event_of, fail_call, finish_call, ledger_error, llm_cancelled, llm_raised, llm_returned,
  normalize_response, record_event, rejected_for,
}
use owlclaw.Governance.Proxy.Traces.{then_check-keeps}

-- The texts that the ledger requires are not blank.
abbrev pub IsNamed : GovernanceProxy → Call → Type 0
IsNamed p call =
    (is_empty (strip p.tenant_id) ≡ false)
    × (is_empty (strip p.agent_id) ≡ false)
    × (is_empty (strip call.run_id) ≡ false)
    × (is_empty (strip call.caller) ≡ false)

-- The caller gets `completion`, and the ledger has one record of the call more, at its end, with the
-- status; of the others it keeps the newest, as many as its bound leaves.
abbrev pub LeavesOne :
    GovernanceProxy → Call → String → Completion → Completion × GovernanceProxy → Type 0
LeavesOne p call status completion (outcome, p') =
    (outcome ≡ completion)
    × (added : InMemoryRecord) × (p'.ledger.records
        ≡ drop (length p.ledger.records + 1 - p.ledger.max_records)
            (p.ledger.records ++ added ∷ []))
    × (added.capability_name ≡ strip call.caller)
    × (added.tenant_id ≡ strip p.tenant_id)
    × (added.status ≡ status)

-- The ledger is what it was.
abbrev pub LeavesNone : GovernanceProxy → Completion × GovernanceProxy → Type 0
LeavesNone p (outcome, p') = p'.ledger ≡ p.ledger

-- What a call leaves, by what the gate says and what the model does.
abbrev pub IsAudited :
    GovernanceProxy → Call → Option Refusal → LlmOutcome → Completion × GovernanceProxy → Type 0
IsAudited p call (some (rejection reason)) outcome result =
    LeavesOne p call "blocked" (rejected_for reason) result
IsAudited p call (some gate_error) outcome result = LeavesNone p result
IsAudited p call none llm_cancelled result = LeavesNone p result
IsAudited p call none (llm_raised reason) result = LeavesOne p call "failure" call_failed result
IsAudited p call none (llm_returned raw) result =
    LeavesOne p call "success" (completed (normalize_response raw)) result

few_enough : (a b : ℕ) → ltb a b ≡ false → b ≤ a
few_enough a b h = ground arith

append_record-newest :
    (ledger : InMemoryLedger) (added : InMemoryRecord)
    → 0 < ledger.max_records
    → (append_record ledger added).records
      ≡ drop (length ledger.records + 1 - ledger.max_records) (ledger.records ++ added ∷ [])
unfolding append_record last_records
append_record-newest ledger added positive =
    let more = length-append ledger.records (added ∷ []) in
    let set : nat_eq ledger.max_records 0 ≡ false = ground arith in
    elim (Bool-cases (ltb ledger.max_records (length (ledger.records ++ added ∷ [])))) [
      | inl over ↦
          rw (over, set)
            (ap (λ n. drop (n - ledger.max_records) (ledger.records ++ added ∷ [])) more)
      | inr fits ↦
          let none_over : length ledger.records + 1 - ledger.max_records ≡ 0 =
            omega (arith, more, few_enough ledger.max_records _ fits) in
          rw (fits, none_over) refl
    ]

-- The parts of the proxy that its records need.
abbrev SameBooks : GovernanceProxy → GovernanceProxy → Type 0
SameBooks p q = (q.tenant_id ≡ p.tenant_id) × (q.agent_id ≡ p.agent_id) × (q.ledger ≡ p.ledger)

required : (s : String) → is_empty (strip s) ≡ false → require_text (str s) ≡ some (strip s)
unfolding require_text
required s h = rw h refl

entry_of : GovernanceProxy → Call → String → String → Value → Dollars → InMemoryRecord
entry_of p call status reason output cost =
    record (event_of p call status reason output cost).rest {
      tenant_id = strip p.tenant_id;
      agent_id = strip p.agent_id;
      run_id = strip call.run_id;
      capability_name = strip call.caller;
      task_type = "llm_proxy";
      input_params = dict (field "caller" (str call.caller) end);
    }

task_named : require_text (str "llm_proxy") ≡ some "llm_proxy"
unfolding require_text strip
task_named = refl

records_event :
    (p : GovernanceProxy) (call : Call) (status reason : String) (output : Value) (cost : Dollars)
    → IsNamed p call
    → record_execution p.ledger (event_of p call status reason output cost)
      ≡ some (append_record p.ledger (entry_of p call status reason output cost))
unfolding record_execution build_record entry_of
records_event p call status reason output cost (tenant, agent, run, caller) =
    rw
      (
        required p.tenant_id tenant,
        required p.agent_id agent,
        required call.run_id run,
        required call.caller caller,
        task_named,
      )
      refl

gate-SameBooks :
    (p : GovernanceProxy) (caller : String) (reading : Reading)
    → SameBooks p (gate p caller reading).1
unfolding gate check_budget check_rate_limit check_circuit
gate-SameBooks p caller reading =
    let P : GovernanceProxy → Type 0 = λ q. SameBooks p q in
    let budget = check_budget p caller reading.today reading.month in
    let rate = then_check budget (λ q. check_rate_limit q caller reading.rate_now) in
    then_check-keeps P rate (λ q. check_circuit q caller reading.circuit_now)
      (then_check-keeps P budget (λ q. check_rate_limit q caller reading.rate_now)
        (refl, refl, refl) (λ q k. k))
      (λ q k. k)

leaves :
    (p q : GovernanceProxy) (call : Call) (status reason : String) (output : Value) (cost : Dollars)
    (completion : Completion) (otherwise : GovernanceProxy → Completion × GovernanceProxy)
    → IsNamed q call
    → SameBooks p q
    → 0 < p.ledger.max_records
    → LeavesOne p call status completion
        (record_event q call status reason output cost completion otherwise)
unfolding entry_of
leaves p q call status reason output cost completion otherwise named (tenant, agent, ledger) roomy =
    let entry = entry_of q call status reason output cost in
    rw (records_event q call status reason output cost named) (
      refl,
      entry,
      ap (λ (l : InMemoryLedger). (append_record l entry).records) ledger
          ∙ append_record-newest p.ledger entry roomy,
      refl,
      ap (λ s. strip s) tenant,
      refl,
    )

IsNamed-SameBooks :
    (p q : GovernanceProxy) (call : Call) → IsNamed p call → SameBooks p q → IsNamed q call
IsNamed-SameBooks p q call (tenant, agent, run, caller) (same_tenant, same_agent, _) =
    (rw same_tenant tenant, rw same_agent agent, run, caller)

behind_gate-IsAudited :
    (tokens_of : Value → Option Dollars) (p q : GovernanceProxy) (call : Call)
    (refusal : Option Refusal) (outcome : LlmOutcome)
    → call.outcome ≡ outcome
    → IsNamed q call
    → SameBooks p q
    → 0 < p.ledger.max_records
    → IsAudited p call refusal outcome (behind_gate tokens_of call (refusal, q))
unfolding finish_call fail_call on_failure consume_budget on_success
behind_gate-IsAudited tokens_of p q call (some (rejection reason)) outcome e named same roomy =
    leaves p q call "blocked" reason null (usd (pos 0)) (rejected_for reason) ledger_error named
      same roomy
behind_gate-IsAudited tokens_of p q call (some gate_error) outcome e named (_, _, ledger) roomy =
    ledger
behind_gate-IsAudited tokens_of p q call none llm_cancelled e named (_, _, ledger) roomy =
    rw e ledger
behind_gate-IsAudited tokens_of p q call none (llm_raised reason) e named same roomy = rw e (
    leaves p (on_failure q call.caller call.failed_at) call "failure" reason null (usd (pos 0))
      call_failed ledger_error named same roomy)
behind_gate-IsAudited tokens_of p q call none (llm_returned raw) e named same roomy =
    let response = normalize_response raw in
    let cost = estimate_cost tokens_of response in
    let q' = on_success (consume_budget q call.caller call.today call.month cost) call.caller in
    rw e (
      leaves p q' call "success" "" (dict response) cost (completed response)
        (λ q''. fail_call q'' call "ValueError") named same roomy)

-- Where tenant, agent, caller and run id are not blank and the ledger may hold a record, every call
-- adds exactly one record under its tenant and caller, with the status "blocked" if the gate rejects
-- it, "success" if the model answers and "failure" if it raises, except that a call leaves none where
-- a check of the gate raises another error, passed through or not, or where it is cancelled.
pub acompletion-IsAudited :
    (tokens_of : Value → Option Dollars) (p : GovernanceProxy) (call : Call)
    → IsNamed p call
    → 0 < p.ledger.max_records
    → IsAudited p call
        (gate p call.caller call.reading).0
        call.outcome
        (acompletion tokens_of p call)
unfolding acompletion
acompletion-IsAudited tokens_of p call named roomy =
    let v = gate p call.caller call.reading in
    let same = gate-SameBooks p call.caller call.reading in
    behind_gate-IsAudited tokens_of p v.1 call v.0 call.outcome refl
      (IsNamed-SameBooks p v.1 call named same) same roomy
