-- ===== src/Governance/Constraints/RateLimit/Examples.antt =====
-- Runs of owlclaw/governance/constraints/rate_limit.py.
use owlclaw.Base.{[], false, none, refl, some, strip, ◌≡◌}
use owlclaw.Base.Int.{negsuc}
use owlclaw.Base.Number.{int_of_text, read_digits, read_signed}
use owlclaw.Base.Value.{end, field, get_field, int, str}
use owlclaw.Governance.Constraints.RateLimit.{parse_non_negative_int}
use owlclaw.Governance.Ledger.{InMemoryLedger}
use owlclaw.Governance.View.{CapabilityView, RunContext}

abbrev empty_ledger : InMemoryLedger
empty_ledger = record { records = []; max_records = 10 }

abbrev limited : CapabilityView
limited = record {
  name = "buy";
  description = "";
  task_type = "trade";
  constraints = field "max_daily_calls" (str " 3 ") (field "cooldown_seconds" (int (negsuc 4)) end);
  focus = [];
  risk_level = "low";
  requires_confirmation = false;
}

abbrev acme : RunContext
acme = record { tenant_id = "acme"; confirmed_capabilities = none }

three : parse_non_negative_int (get_field limited.constraints "max_daily_calls") ≡ some (some 3)
unfolding parse_non_negative_int get_field int_of_text read_signed read_digits strip
three = refl

negative : parse_non_negative_int (get_field limited.constraints "cooldown_seconds") ≡ some none
unfolding parse_non_negative_int get_field
negative = refl
