-- ===== src/Governance/Constraints/CircuitBreaker/Failures.antt =====
-- When a circuit that is not open trips: the newest records are all failures.
use owlclaw.Base.{
  All, Bool, Bool-cases, List, String, [], all_of, ap, arith, eq_iff, false, if◌then◌else◌, inl,
  inr, keep_if, keep_if-keep_if, length, length-take, ltb, refl, string_eq, string_pair_eq, suc,
  take, true, zero, ℕ, ◌&&◌, ◌+◌, ◌==◌, ◌↔◌, ◌∷◌, ◌≡◌, ◌≢◌, ◌≤◌, ◌⊎◌,
}
use owlclaw.Base.Dict.{get}
use owlclaw.Base.Sort.{sort_by}
use owlclaw.Governance.Constraints.CircuitBreaker.{
  CircuitBreaker, evaluate_circuit, failed_status, failure_filters, leading_failures, opened,
  recent_failures, state_or_closed,
}
use owlclaw.Governance.Constraints.CircuitBreaker.States.{
  check_failures_hidden, check_failures_tripped, evaluate_circuit_shut,
}
use owlclaw.Governance.Ledger.{
  InMemoryLedger, InMemoryRecord, keep_equal, keep_from, keep_mode, keep_until, order_results,
  query_records, select_records,
}
use owlclaw.Governance.View.{CapabilityView, RunContext}

leading_failures-le :
    (n : ℕ) (records : List InMemoryRecord)
    → n ≤ leading_failures records
    → (n ≤ length records) × (all_of (λ r. failed_status r.status) (take n records) ≡ true)
unfolding leading_failures
leading_failures-le zero records h = (omega arith, refl)
leading_failures-le (suc n) [] h = absurd (omega arith)
leading_failures-le (suc n) (r ∷ rs) h = go (failed_status r.status) (leading_failures-le n rs) h
  where
    go :
        (b : Bool)
        → (n ≤ leading_failures rs
            → (n ≤ length rs) × (all_of (λ r. failed_status r.status) (take n rs) ≡ true))
        → suc n ≤ (if b then suc (leading_failures rs) else 0)
        → (suc n ≤ suc (length rs))
          × ((b && all_of (λ r. failed_status r.status) (take n rs)) ≡ true)
    go true ih h = let (a, b) = ih (omega arith) in (omega arith, b)
    go false ih h = absurd (omega arith)

le-leading_failures :
    (n : ℕ) (records : List InMemoryRecord)
    → n ≤ length records
    → all_of (λ r. failed_status r.status) (take n records) ≡ true
    → n ≤ leading_failures records
unfolding leading_failures
le-leading_failures zero records h k = omega arith
le-leading_failures (suc n) [] h k = absurd (omega arith)
le-leading_failures (suc n) (r ∷ rs) h k = go (failed_status r.status) (le-leading_failures n rs) k
  where
    go :
        (b : Bool)
        → (n ≤ length rs
            → all_of (λ r. failed_status r.status) (take n rs) ≡ true
            → n ≤ leading_failures rs)
        → (b && all_of (λ r. failed_status r.status) (take n rs)) ≡ true
        → suc n ≤ (if b then suc (leading_failures rs) else 0)
    go true ih k = omega (arith, ih (omega arith) k)
    go false ih k = absurd (cc)

-- The records of a capability in the ledger, the newest first, as `sorted` orders them.
abbrev pub newest_records : InMemoryLedger → String → String → String → List InMemoryRecord
newest_records ledger tenant_id agent_id capability_name =
    sort_by (λ r s. ltb r.created_at s.created_at)
      (keep_if
        (λ r.
          r.tenant_id == tenant_id
          && r.agent_id == agent_id
          && r.capability_name == capability_name)
        ledger.records)

abbrev pub Failed : InMemoryRecord → Type 0
Failed r = (r.status ≡ "error") ⊎ (r.status ≡ "timeout")

failed_iff :
    (status : String) → (failed_status status ≡ true) ↔ ((status ≡ "error") ⊎ (status ≡ "timeout"))
failed_iff status =
    let error = eq_iff status "error" in
    let timeout = eq_iff status "timeout" in
    (
      (λ h. elim (Bool-cases (status == "error")) [
        | inl e ↦ inl (error.0 e)
        | inr e ↦ inr (timeout.0 (ground (arith, h, e)))
      ]),
      (λ which. elim which [
        | inl e ↦ ground (arith, error.1 e)
        | inr e ↦ ground (arith, timeout.1 e)
      ]),
    )

all-Failed_iff :
    (records : List InMemoryRecord)
    → (all_of (λ r. failed_status r.status) records ≡ true) ↔ All Failed records
all-Failed_iff [] = ((λ h. tt), (λ h. refl))
all-Failed_iff (r ∷ rs) =
    let ih = all-Failed_iff rs in
    let this = failed_iff r.status in
    (
      (λ h. (this.0 (ground arith), ih.0 (ground arith))),
      (λ (h, hs). ground (arith, this.1 h, ih.1 hs)),
    )

take_more : {A : Type 0} (n : ℕ) (xs : List A) → take n (take (n + 1) xs) ≡ take n xs
take_more n xs = let e : n + 1 ≡ suc n = omega arith in rw e (go n xs)
  where
    go : {A : Type 0} (n : ℕ) (xs : List A) → take n (take (suc n) xs) ≡ take n xs
    go zero xs = refl
    go (suc n) [] = refl
    go (suc n) (x ∷ xs) = ap (λ rest. x ∷ rest) (go n xs)

query_records-newest :
    (ledger : InMemoryLedger) (tenant_id agent_id capability_name : String) (threshold : ℕ)
    → query_records ledger tenant_id (failure_filters agent_id capability_name threshold)
      ≡ take (threshold + 1) (newest_records ledger tenant_id agent_id capability_name)
unfolding query_records order_results select_records keep_equal keep_mode keep_from keep_until
query_records-newest ledger tenant_id agent_id capability_name threshold = simp keep_if-keep_if refl

-- A circuit that is not open hides its capability exactly if the ledger holds at least as many records
-- of the tenant, the agent and the capability as the threshold says, and the newest of them, up to
-- that number, all have the status "error" or "timeout".
pub evaluate_circuit_hides_iff :
    (breaker : CircuitBreaker) (ledger : InMemoryLedger) (now : ℕ) (capability : CapabilityView)
    (agent_id : String) (context : RunContext)
    → (state_or_closed (get breaker.states (agent_id, capability.name))).0 ≢ opened
    → let threshold = breaker.failure_threshold in
      let newest = newest_records ledger context.tenant_id agent_id capability.name in
      ((evaluate_circuit breaker ledger now capability agent_id context).0.visible ≡ false)
      ↔ (threshold ≤ length newest) × All Failed (take threshold newest)
unfolding recent_failures
evaluate_circuit_hides_iff breaker ledger now capability agent_id context shut =
    let n = breaker.failure_threshold in
    let key : String × String = (agent_id, capability.name) in
    let newest = newest_records ledger context.tenant_id agent_id capability.name in
    let failures = leading_failures (take (n + 1) newest) in
    let few = length-take (n + 1) newest in
    rw
      (
        evaluate_circuit_shut breaker ledger now capability agent_id context shut,
        query_records-newest ledger context.tenant_id agent_id capability.name n,
      )
      (
        (λ h.
            let (many, all) =
              leading_failures-le n (take (n + 1) newest)
                (check_failures_hidden breaker key now failures h) in
            (omega (arith, few, many), (all-Failed_iff (take n newest)).0 (rw take_more at all))),
        (λ (many, all). check_failures_tripped breaker key now failures (
            le-leading_failures n (take (n + 1) newest) (omega (arith, few, many))
              (rw take_more ((all-Failed_iff (take n newest)).1 all)))),
      )
