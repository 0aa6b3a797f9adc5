-- ===== src/Governance/Constraints/Budget/Examples.antt =====
-- Runs of owlclaw/governance/constraints/budget.py: a limit of 100, of which 30 are used.
use owlclaw.Base.{List, String, [], false, refl, some, string_eq, string_pair_eq, true, ◌∷◌, ◌≡◌}
use owlclaw.Base.Dict.{get, put}
use owlclaw.Base.Int.{int_laws, pos, ◌+ℤ◌, ◌-ℤ◌, ◌≤ℤ◌}
use owlclaw.Governance.Constraints.Budget.{
  BudgetConstraint, Reservation, amount, entries_of, evaluate_budget, evaluate_limit, purge_expired,
  reserve, reserved_total, safe_decimal,
}
use owlclaw.Governance.Constraints.Budget.Reservations.{evaluate_budget_within, sum_costs}

abbrev key : String × String
key = ("acme", "trader")

abbrev with_reservations : List Reservation → BudgetConstraint
with_reservations entries = record {
  high_cost_threshold = pos 10;
  budget_limits = ("trader", amount (some (pos 100))) ∷ [];
  reservation_ttl_seconds = 1;
  reservations = (key, entries) ∷ [];
}

abbrev reserved_forty : BudgetConstraint
reserved_forty = with_reservations ((9, pos 40) ∷ [])

fits : (reserve reserved_forty key 5 (pos 100) (pos 30) (pos 30)).0.visible ≡ true
unfolding reserve purge_expired get put reserved_total ◌+ℤ◌ ◌-ℤ◌
fits = refl

over : (reserve reserved_forty key 5 (pos 100) (pos 30) (pos 31)).0.visible ≡ false
unfolding reserve purge_expired get put reserved_total ◌+ℤ◌ ◌-ℤ◌
over = refl

limit_set : get reserved_forty.budget_limits "trader" ≡ some (amount (some (pos 100)))
unfolding get
limit_set = refl

shown_within :
    (evaluate_budget reserved_forty "acme" "trader" 5
      (pos 30)
      (pos 5)
      (amount (some (pos 30)))).0.visible
    ≡ true
unfolding evaluate_budget evaluate_limit safe_decimal
shown_within = rw limit_set fits

evaluate_budget_within_example :
    pos 30
      +ℤ sum_costs (
          entries_of
            (evaluate_budget reserved_forty "acme" "trader" 5
              (pos 30)
              (pos 5)
              (amount (some (pos 30)))).1
            ("acme", "trader"))
    ≤ℤ pos 100
unfolding safe_decimal
evaluate_budget_within_example =
    evaluate_budget_within reserved_forty "acme" "trader" 5 (pos 30) (pos 5) (pos 100)
      (amount (some (pos 30))) limit_set (omega int_laws) shown_within
