-- ===== src/Governance/Constraints/RateLimit.antt =====
-- owlclaw/governance/constraints/rate_limit.py: `RateLimitConstraint` over the ledger.
-- The current time and the current date are arguments; a `bytes` setting is not modelled.
pub mod Limits
mod Examples
use owlclaw.Base.{
  List, Option, String, [], concat, if◌then◌else◌, leb, length, ltb, none, some, ℕ, ◌*◌, ◌+◌, ◌-◌,
  ◌/◌, ◌∷◌,
}
use owlclaw.Base.Int.{negsuc, pos, ℤ}
use owlclaw.Base.Number.{int_of_text, nat_to_text, truncate}
use owlclaw.Base.Value.{Value, float, get_field, inf, int, str}
use owlclaw.Governance.Ledger.{InMemoryLedger, InMemoryRecord, LedgerQueryFilters, query_records}
use owlclaw.Governance.View.{CapabilityView, FilterResult, RunContext, hidden, shown}
use owlclaw.Governance.Visibility.{Outcome, raised, returned}
use owlclaw.Security.RiskGate.{second}

abbrev pub non_negative : ℤ → Option ℕ
non_negative (pos n) = some n
non_negative (negsuc n) = none

abbrev pub bind_int : Option ℤ → Option ℕ
bind_int none = none
bind_int (some z) = non_negative z

-- `_parse_non_negative_int`; the outer `none` is the OverflowError of `int(inf)`, which it lets out.
unfoldable pub parse_non_negative_int : Value → Option (Option ℕ)
parse_non_negative_int (int z) = some (non_negative z)
parse_non_negative_int (float m d) = some (non_negative (truncate m d))
parse_non_negative_int (str s) = some (bind_int (int_of_text s))
parse_non_negative_int (inf positive) = none
parse_non_negative_int _ = some none

abbrev pub day_filters : String → String → ℕ → LedgerQueryFilters
day_filters agent_id capability_name today = record {
  agent_id = some agent_id;
  capability_name = some capability_name;
  status = none;
  execution_mode = none;
  start_date = some today;
  end_date = some today;
  limit = none;
  offset = none;
  order_by = none;
}

abbrev pub last_filters : String → String → LedgerQueryFilters
last_filters agent_id capability_name = record {
  agent_id = some agent_id;
  capability_name = some capability_name;
  status = none;
  execution_mode = none;
  start_date = none;
  end_date = none;
  limit = some 1;
  offset = none;
  order_by = some "created_at DESC";
}

-- `_get_daily_call_count`
unfoldable pub get_daily_call_count : InMemoryLedger → String → String → String → ℕ → ℕ
get_daily_call_count ledger tenant_id agent_id capability_name today =
    length (query_records ledger tenant_id (day_filters agent_id capability_name today))

abbrev pub first_time : List InMemoryRecord → Option ℕ
first_time [] = none
first_time (r ∷ rs) = some r.created_at

-- `_get_last_call_time`
unfoldable pub get_last_call_time : InMemoryLedger → String → String → String → Option ℕ
get_last_call_time ledger tenant_id agent_id capability_name =
    first_time (query_records ledger tenant_id (last_filters agent_id capability_name))

-- The cooldown part of `evaluate`.
unfoldable pub check_cooldown : Option ℕ → ℕ → Option ℕ → FilterResult
check_cooldown none now last_call = shown
check_cooldown (some cooldown_seconds) now none = shown
check_cooldown (some cooldown_seconds) now (some last_call) =
    if ltb now (last_call + cooldown_seconds * second)
    then hidden (
        concat (
          "Cooldown active ("
          ∷ nat_to_text ((last_call + cooldown_seconds * second - now) / second)
          ∷ "s remaining)"
          ∷ []))
    else shown

-- `evaluate`, behind the two parsed settings, the count of the day and the last call
unfoldable pub check_limits : Option ℕ → Option ℕ → ℕ → ℕ → Option ℕ → FilterResult
unfolding check_cooldown
check_limits none cooldown_seconds now count last_call =
    check_cooldown cooldown_seconds now last_call
check_limits (some max_daily_calls) cooldown_seconds now count last_call =
    if leb max_daily_calls count
    then hidden (
        concat (
          "Daily call limit exceeded ("
          ∷ nat_to_text count
          ∷ "/"
          ∷ nat_to_text max_daily_calls
          ∷ ")"
          ∷ []))
    else check_cooldown cooldown_seconds now last_call

abbrev settle_settings :
    Option (Option ℕ) → Option (Option ℕ) → (Option ℕ → Option ℕ → FilterResult) → Outcome
settle_settings none cooldown f = raised
settle_settings (some most) none f = raised
settle_settings (some most) (some cooldown) f = returned (f most cooldown)

-- `evaluate`
unfoldable pub evaluate_rate :
    InMemoryLedger → ℕ → ℕ → CapabilityView → String → RunContext → Outcome
unfolding check_limits
evaluate_rate ledger now today capability agent_id context =
    settle_settings (parse_non_negative_int (get_field capability.constraints "max_daily_calls"))
      (parse_non_negative_int (get_field capability.constraints "cooldown_seconds"))
      λ most cooldown.
        check_limits most cooldown now
          (get_daily_call_count ledger context.tenant_id agent_id capability.name today)
          (get_last_call_time ledger context.tenant_id agent_id capability.name)
