-- ===== src/Governance/Constraints/RateLimit/Limits.antt =====
-- What the daily limit and the cooldown let through.
use owlclaw.Base.{
  Bool, Option, String, arith, count_if, leb, ltb, none, refl, some, true, ℕ, ◌&&◌, ◌*◌, ◌+◌, ◌∙◌,
  ◌≡◌,
}
use owlclaw.Base.Value.{get_field}
use owlclaw.Governance.Constraints.RateLimit.{
  check_limits, day_filters, evaluate_rate, get_daily_call_count, get_last_call_time,
  parse_non_negative_int,
}
use owlclaw.Governance.Ledger.{InMemoryLedger}
use owlclaw.Governance.Ledger.Query.{length-query_records, matches}
use owlclaw.Governance.View.{CapabilityView, FilterResult, RunContext}
use owlclaw.Governance.Visibility.{returned}
use owlclaw.Security.RiskGate.{second}

-- The limit is not reached.
abbrev pub below : Option ℕ → ℕ → Bool
below none count = true
below (some most) count = ltb count most

-- The last call, if there was one, is at least the cooldown ago.
abbrev pub cooled : Option ℕ → ℕ → Option ℕ → Bool
cooled none now last_call = true
cooled (some seconds) now none = true
cooled (some seconds) now (some t) = leb (t + seconds * second) now

check_limits-visible :
    (most cooldown : Option ℕ) (now count : ℕ) (last_call : Option ℕ)
    → (check_limits most cooldown now count last_call).visible
      ≡ (below most count && cooled cooldown now last_call)
unfolding check_limits
check_limits-visible most cooldown now count last_call = ground arith

-- With settings that parse, a capability is shown exactly if the records of this tenant, agent,
-- capability and day are fewer than the daily limit, and the last call that the ledger reports is
-- at least the cooldown ago; a setting that is absent or no number limits nothing.
pub evaluate_rate-visible :
    (ledger : InMemoryLedger) (now today : ℕ) (capability : CapabilityView) (agent_id : String)
    (context : RunContext) (most cooldown : Option ℕ)
    → parse_non_negative_int (get_field capability.constraints "max_daily_calls") ≡ some most
    → parse_non_negative_int (get_field capability.constraints "cooldown_seconds") ≡ some cooldown
    → let count =
        count_if
          (matches context.tenant_id (day_filters agent_id capability.name today))
          ledger.records in
      let last_call = get_last_call_time ledger context.tenant_id agent_id capability.name in
      (r : FilterResult) × (evaluate_rate ledger now today capability agent_id context ≡ returned r)
      × (r.visible ≡ (below most count && cooled cooldown now last_call))
unfolding evaluate_rate get_daily_call_count
evaluate_rate-visible ledger now today capability agent_id context most cooldown e e' =
    let count =
      length-query_records ledger context.tenant_id (day_filters agent_id capability.name today) in
    (
      check_limits most cooldown now
          (get_daily_call_count ledger context.tenant_id agent_id capability.name today)
          (get_last_call_time ledger context.tenant_id agent_id capability.name),
      rw (e, e') refl,
      check_limits-visible most cooldown now _ _ ∙ rw count refl,
    )
