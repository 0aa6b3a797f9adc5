-- ===== src/Governance/Constraints/Budget.antt =====
-- owlclaw/governance/constraints/budget.py: `BudgetConstraint`.
-- Amounts are integers of one small unit, so sums and comparisons are those of `Decimal`; NaN and
-- the infinities are not modelled. The cost that the ledger reports and the clock are arguments; the
-- amounts inside a reason are left out.
pub mod Reservations
mod Examples
use owlclaw.Base.{
  Bool, List, Option, String, [], if◌then◌else◌, keep_if, ltb, none, some, string_eq,
  string_pair_eq, ℕ, ◌&&◌, ◌*◌, ◌++◌, ◌+◌, ◌||◌, ◌∷◌,
}
use owlclaw.Base.Dict.{Dict, get, put, remove}
use owlclaw.Base.Int.{leb_ℤ, ltb_ℤ, pos, ℤ, ◌+ℤ◌, ◌-ℤ◌}
use owlclaw.Governance.View.{FilterResult, hidden, shown}
use owlclaw.Security.RiskGate.{second}

-- A configured amount: absent, false in Python (0 or an empty text), or any other; with the number
-- that `Decimal(str(value))` reads, if it reads one.
pub data Amount : Type 0 where
  absent : Amount
  falsy amount : Option ℤ → Amount

-- `_safe_decimal`
unfoldable pub safe_decimal : Amount → ℤ → ℤ
safe_decimal absent default = default
safe_decimal (falsy none) default = default
safe_decimal (falsy (some z)) default = z
safe_decimal (amount none) default = default
safe_decimal (amount (some z)) default = z

abbrev pub Reservation : Type 0
Reservation = ℕ × ℤ

pub record BudgetConstraint : Type 0 where
  pub high_cost_threshold : ℤ
  pub budget_limits : Dict String Amount
  pub reservation_ttl_seconds : ℕ
  pub reservations : Dict (String × String) (List Reservation)

abbrev pub entries_or_none : Option (List Reservation) → List Reservation
entries_or_none none = []
entries_or_none (some entries) = entries

abbrev pub entries_of : BudgetConstraint → String × String → List Reservation
entries_of b key = entries_or_none (get b.reservations key)

abbrev pub is_live : ℕ → Reservation → Bool
is_live now (expires, cost) = ltb now expires

-- `self._reservations[key] = kept`, or the key is dropped where nothing is kept.
abbrev pub store_entries : BudgetConstraint → String × String → List Reservation → BudgetConstraint
store_entries b key [] = record b { reservations = remove b.reservations key }
store_entries b key (e ∷ es) = record b { reservations = put b.reservations key (e ∷ es) }

abbrev pub purge_entries :
    BudgetConstraint → String × String → ℕ → List Reservation → BudgetConstraint
purge_entries b key now [] = b
purge_entries b key now (e ∷ es) = store_entries b key (keep_if (is_live now) (e ∷ es))

-- `_purge_expired_reservations`
unfoldable pub purge_expired : BudgetConstraint → String × String → ℕ → BudgetConstraint
purge_expired b key now = purge_entries b key now (entries_of b key)

unfoldable pub reserved_total : List Reservation → ℤ
reserved_total [] = pos 0
reserved_total ((expires, cost) ∷ es) = cost +ℤ reserved_total es

abbrev pub exhausted : ℤ → ℤ → Bool
exhausted remaining estimated_cost = leb_ℤ remaining (pos 0) || ltb_ℤ remaining estimated_cost

-- The part of `evaluate` under the lock.
unfoldable pub reserve :
    BudgetConstraint → String × String → ℕ → ℤ → ℤ → ℤ → FilterResult × BudgetConstraint
unfolding reserved_total
reserve b key now limit used_cost estimated_cost =
    let reservation_needed = ltb_ℤ b.high_cost_threshold estimated_cost in
    let b' = purge_expired b key now in
    let entries = entries_of b' key in
    let remaining = limit -ℤ used_cost -ℤ reserved_total entries in
    let expires = now + b.reservation_ttl_seconds * second in
    if reservation_needed && exhausted remaining estimated_cost
    then (hidden "Budget exhausted", b')
    else if reservation_needed
    then (
      shown,
      record b' {
        reservations = put b'.reservations key (entries ++ (expires, estimated_cost) ∷ []);
      },
    )
    else (shown, b')

abbrev pub limit_or_absent : Option Amount → Amount
limit_or_absent none = absent
limit_or_absent (some limit) = limit

-- `evaluate`, behind the agent's limit; `estimate` is the capability's `estimated_cost` setting,
-- and `default_cost` the amount 0.05.
unfoldable pub evaluate_limit :
    BudgetConstraint
    → String
    → String
    → ℕ
    → ℤ
    → ℤ
    → Amount
    → Amount
    → FilterResult × BudgetConstraint
unfolding reserve
evaluate_limit b tenant_id agent_id now used_cost default_cost estimate absent = (shown, b)
evaluate_limit b tenant_id agent_id now used_cost default_cost estimate (falsy limit) = (shown, b)
evaluate_limit b tenant_id agent_id now used_cost default_cost estimate (amount limit) =
    reserve b (tenant_id, agent_id) now (safe_decimal (amount limit) (pos 0)) used_cost
      (safe_decimal estimate default_cost)

-- `evaluate`
unfoldable pub evaluate_budget :
    BudgetConstraint → String → String → ℕ → ℤ → ℤ → Amount → FilterResult × BudgetConstraint
evaluate_budget b tenant_id agent_id now used_cost default_cost estimate =
    evaluate_limit b tenant_id agent_id now used_cost default_cost estimate
      (limit_or_absent (get b.budget_limits agent_id))

abbrev pub release_head :
    ℤ → Reservation → List Reservation → Option (List Reservation) → Option (List Reservation)
release_head safe_amount entry es (some es') = some (entry ∷ es')
release_head safe_amount (expires, cost) es none = if leb_ℤ safe_amount cost then some es else none

-- The loop of `refund_reservation`: the last entry of at least the amount is popped.
unfoldable pub release_last : ℤ → List Reservation → Option (List Reservation)
release_last safe_amount [] = none
release_last safe_amount (entry ∷ es) =
    release_head safe_amount entry es (release_last safe_amount es)

abbrev pub or_same : List Reservation → Option (List Reservation) → List Reservation
or_same entries none = entries
or_same entries (some entries') = entries'

-- `refund_reservation`
unfoldable pub refund_reservation :
    BudgetConstraint → String → String → ℕ → Amount → BudgetConstraint
unfolding release_last
refund_reservation b tenant_id agent_id now given =
    let safe_amount = safe_decimal given (pos 0) in
    let key : String × String = (tenant_id, agent_id) in
    let b' = purge_expired b key now in
    let entries = entries_of b' key in
    if leb_ℤ safe_amount (pos 0)
    then b
    else store_entries b' key (or_same entries (release_last safe_amount entries))
