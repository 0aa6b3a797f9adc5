-- ===== src/Governance/Constraints/Time.antt =====
-- owlclaw/governance/constraints/time.py: `TimeConstraint`.
-- A time of the day is its microseconds since midnight; the weekday and the time of the day in the
-- constraint's zone are arguments. `trading_hours.start` and `end` are texts or times.
pub mod Window
mod Examples
use Prim.Native.Char.{Char, code}
use Prim.Native.String.{char_at}
use owlclaw.Base.{
  Bool, List, Option, String, [], concat, false, if◌then◌else◌, leb, ltb, nat_eq, none, not, some,
  strip, ℕ, ◌%◌, ◌&&◌, ◌*◌, ◌+◌, ◌/◌, ◌||◌, ◌∷◌,
}
use owlclaw.Base.Int.{pos, ℤ}
use owlclaw.Base.Number.{int_of_text}
use owlclaw.Base.Value.{get_field, is_set}
use owlclaw.Governance.View.{CapabilityView, FilterResult, hidden, shown}
use owlclaw.Security.RiskGate.{second}

abbrev onto_head : Char → List String → List String
onto_head c [] = String.◌∷◌ c String.[] ∷ []
onto_head c (s ∷ ss) = String.◌∷◌ c s ∷ ss

-- `s.split(":")`
unfoldable pub split_colon : String → List String
split_colon String.[] = "" ∷ []
split_colon (String.◌∷◌ c s) =
    let rest = split_colon s in if nat_eq (code c) b':' then "" ∷ rest else onto_head c rest

pub data TimeSetting : Type 0 where
  time_of_day : ℕ → TimeSetting
  time_text : String → TimeSetting

abbrev pub clock : ℕ → ℕ → ℕ → ℕ
clock h m s = (h * 3600 + m * 60 + s) * second

-- `time(h, m, s)`; `none` is a ValueError, of `time` or of `int`.
unfoldable pub new_time : Option ℤ → Option ℤ → Option ℤ → Option ℕ
new_time (some (pos h)) (some (pos m)) (some (pos s)) =
    if ltb h 24 && ltb m 60 && ltb s 60 then some (clock h m s) else none
new_time _ _ _ = none

unfoldable pub time_of_parts : List String → Option ℕ
unfolding new_time
time_of_parts (h ∷ m ∷ []) = new_time (int_of_text h) (int_of_text m) (some (pos 0))
time_of_parts (h ∷ m ∷ s ∷ rest) = new_time (int_of_text h) (int_of_text m) (int_of_text s)
time_of_parts _ = some (clock 9 30 0)

-- `_parse_time`
unfoldable pub parse_time : TimeSetting → Option ℕ
unfolding split_colon time_of_parts
parse_time (time_of_day t) = some t
parse_time (time_text s) = time_of_parts (split_colon (strip s))

-- `_parse_weekdays`
unfoldable pub parse_weekdays : Option (List ℕ) → List ℕ
parse_weekdays (some (d ∷ ds)) = d ∷ ds
parse_weekdays _ = 0 ∷ 1 ∷ 2 ∷ 3 ∷ 4 ∷ []

pub record TimeConstraint : Type 0 where
  pub start_time : ℕ
  pub end_time : ℕ
  pub weekdays : List ℕ

abbrev both_times : Option ℕ → Option ℕ → List ℕ → Option TimeConstraint
both_times (some start) (some finish) days =
    some (record { start_time = start; end_time = finish; weekdays = days })
both_times _ _ days = none

abbrev or_time : String → Option TimeSetting → TimeSetting
or_time s none = time_text s
or_time s (some t) = t

-- `__init__`; `none` is a ValueError.
unfoldable pub new_time_constraint :
    Option TimeSetting → Option TimeSetting → Option (List ℕ) → Option TimeConstraint
unfolding parse_time
new_time_constraint start finish days =
    both_times (parse_time (or_time "09:30" start)) (parse_time (or_time "15:00" finish))
      (parse_weekdays days)

unfoldable pub has_day : ℕ → List ℕ → Bool
has_day weekday [] = false
has_day weekday (d ∷ ds) = nat_eq d weekday || has_day weekday ds

abbrev two_digits : ℕ → String
two_digits n =
    String.◌∷◌ (char_at "0123456789" (n / 10 % 10))
      (String.◌∷◌ (char_at "0123456789" (n % 10)) String.[])

-- `str(t)` of a time; a part of a second has six digits.
unfoldable pub time_to_text : ℕ → String
time_to_text t =
    let s = t / second in
    let us = t % second in
    concat (
      two_digits (s / 3600)
      ∷ ":"
      ∷ two_digits (s / 60 % 60)
      ∷ ":"
      ∷ two_digits (s % 60)
      ∷ (if nat_eq us 0
          then ""
          else concat (
              "."
              ∷ two_digits (us / 10000)
              ∷ two_digits (us / 100 % 100)
              ∷ two_digits (us % 100)
              ∷ []))
      ∷ [])

-- `evaluate`
unfoldable pub evaluate_time : TimeConstraint → ℕ → ℕ → CapabilityView → FilterResult
unfolding has_day is_set
evaluate_time tc weekday now capability =
    if not (is_set (get_field capability.constraints "trading_hours_only"))
    then shown
    else if not (has_day weekday tc.weekdays)
    then hidden "Outside trading weekdays"
    else if not (leb tc.start_time now && leb now tc.end_time)
    then hidden (
        concat (
          "Outside trading hours ("
          ∷ time_to_text tc.start_time
          ∷ "-"
          ∷ time_to_text tc.end_time
          ∷ ")"
          ∷ []))
    else shown
