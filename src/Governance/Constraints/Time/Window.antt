-- ===== src/Governance/Constraints/Time/Window.antt =====
-- When the trading window of owlclaw/governance/constraints/time.py lets a capability through.
use owlclaw.Base.{
  List, Option, String, [], arith, leb, not, some, strip, ℕ, ◌&&◌, ◌*◌, ◌<◌, ◌||◌, ◌∷◌, ◌≡◌,
}
use owlclaw.Base.Int.{pos, ℤ}
use owlclaw.Base.Number.{int_of_text}
use owlclaw.Base.Value.{get_field, is_set}
use owlclaw.Governance.Constraints.Time.{
  TimeConstraint, evaluate_time, has_day, new_time, parse_time, split_colon, time_of_parts,
  time_text,
}
use owlclaw.Governance.View.{CapabilityView}
use owlclaw.Security.RiskGate.{second}

-- A setting never ends in a time that the day does not have.
new_time-lt : (h m s : Option ℤ) (t : ℕ) → new_time h m s ≡ some t → t < 24 * 3600 * second
unfolding new_time
new_time-lt (some (pos h)) (some (pos m)) (some (pos s)) t e = ground (arith, e)
new_time-lt _ _ _ t e = absurd (cc)

-- A text gives a time that the day has, or an error.
pub parse_time-lt :
    (s : String) (t : ℕ) → parse_time (time_text s) ≡ some t → t < 24 * 3600 * second
unfolding parse_time time_of_parts
parse_time-lt s t e = go (split_colon (strip s)) e
  where
    go : (parts : List String) → time_of_parts parts ≡ some t → t < 24 * 3600 * second
    go [] e = ground (arith, e)
    go (h ∷ []) e = ground (arith, e)
    go (h ∷ m ∷ []) e = new_time-lt (int_of_text h) (int_of_text m) (some (pos 0)) t e
    go (h ∷ m ∷ sec ∷ rest) e = new_time-lt (int_of_text h) (int_of_text m) (int_of_text sec) t e

-- A capability is shown exactly when it is not bound to trading hours or the weekday is a trading
-- day and the time lies in the window, its two ends included.
pub evaluate_time_iff :
    (tc : TimeConstraint) (weekday now : ℕ) (capability : CapabilityView)
    → (evaluate_time tc weekday now capability).visible ≡ (
        not (is_set (get_field capability.constraints "trading_hours_only"))
        || (has_day weekday tc.weekdays && (leb tc.start_time now && leb now tc.end_time)))
unfolding evaluate_time
evaluate_time_iff tc weekday now capability = ground arith
