-- ===== src/Governance/Proxy/HalfOpen.antt =====
-- owlclaw/governance/proxy.py: a half-open circuit whose calls do not come back.
use owlclaw.Base.{All, List, String, ap, arith, leb, refl, some, true, ℕ, ◌∙◌, ◌≡◌, ◌≤◌}
use owlclaw.Governance.Proxy.{
  Circuit, GovernanceProxy, Reading, Refusal, circuit_half_open, circuit_of, gate, pass_phase,
  rejection,
}
use owlclaw.Governance.Proxy.Traces.{
  IsSilent, ProxyEvent, gate_shut, perform_all, perform_all-IsShut,
}

-- A half-open circuit that let through as many calls as it may.
abbrev pub IsSpent : GovernanceProxy → String → Type 0
IsSpent p caller =
    ((circuit_of p caller).phase ≡ circuit_half_open)
    × (p.half_open_max_calls ≤ (circuit_of p caller).half_open_calls)

spent_blocks :
    (timeout most now : ℕ) (c : Circuit)
    → c.phase ≡ circuit_half_open
    → most ≤ c.half_open_calls
    → pass_phase timeout most now c.phase c ≡ (some (rejection "circuit_half_open_limit"), c)
spent_blocks timeout most now c half many =
    let full : leb most c.half_open_calls ≡ true = ground arith in
    ap (λ phase. pass_phase timeout most now phase c) half ∙ rw full refl

-- While a half-open circuit has let through as many calls as it may, the gate lets no call of the
-- caller in, however much time passes and whatever other callers do, as long as no earlier call of
-- the caller comes back; a call that asks is rejected,
-- or a check raises another error.
pub gate_never_recovers :
    (caller : String) (p : GovernanceProxy) (events : List ProxyEvent) (reading : Reading)
    → IsSpent p caller
    → All (IsSilent caller (λ t. Unit)) events
    → (refusal : Refusal) × ((gate (perform_all p events) caller reading).0 ≡ some refusal)
gate_never_recovers caller p events reading (half, many) quiet =
    let c = circuit_of p caller in
    let blocks : (t : ℕ)
        → Unit
        → pass_phase p.recovery_timeout_seconds p.half_open_max_calls t c.phase c
          ≡ (some (rejection "circuit_half_open_limit"), c) =
      λ t any. spent_blocks p.recovery_timeout_seconds p.half_open_max_calls t c half many in
    gate_shut caller (λ t. Unit) c p.recovery_timeout_seconds p.half_open_max_calls
      "circuit_half_open_limit" blocks (perform_all p events) reading tt
      (perform_all-IsShut caller (λ t. Unit) c p.recovery_timeout_seconds p.half_open_max_calls
        "circuit_half_open_limit" blocks events p quiet (refl, refl, refl))
