-- ===== src/Governance/Constraints/Time/Examples.antt =====
-- Runs of owlclaw/governance/constraints/time.py: the window from 09:30 to 15:00 on weekdays.
use owlclaw.Base.{[], false, none, refl, some, strip, true, ◌∷◌, ◌≡◌}
use owlclaw.Base.Number.{int_of_text, read_digits, read_signed}
use owlclaw.Base.Value.{bool, end, field, get_field, is_set}
use owlclaw.Governance.Constraints.Time.{
  TimeConstraint, clock, evaluate_time, has_day, new_time, new_time_constraint, parse_time,
  parse_weekdays, split_colon, time_of_parts, time_text, time_to_text,
}
use owlclaw.Governance.View.{CapabilityView}

abbrev trading : CapabilityView
trading = record {
  name = "buy";
  description = "";
  task_type = "trade";
  constraints = field "trading_hours_only" (bool true) end;
  focus = [];
  risk_level = "low";
  requires_confirmation = false;
}

abbrev default_hours : TimeConstraint
default_hours = record {
  start_time = clock 9 30 0;
  end_time = clock 15 0 0;
  weekdays = 0 ∷ 1 ∷ 2 ∷ 3 ∷ 4 ∷ [];
}

defaults : new_time_constraint none none none ≡ some default_hours
unfolding new_time_constraint parse_time parse_weekdays time_of_parts split_colon int_of_text
    read_signed read_digits strip new_time
defaults = refl

too_early :
    (evaluate_time default_hours 0 (clock 9 29 59) trading).reason
    ≡ "Outside trading hours (09:30:00-15:00:00)"
unfolding evaluate_time is_set get_field has_day time_to_text
too_early = refl

half_past_nine : parse_time (time_text " 09:30 ") ≡ some (clock 9 30 0)
unfolding parse_time time_of_parts split_colon int_of_text read_signed read_digits strip new_time
half_past_nine = refl
