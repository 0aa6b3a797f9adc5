-- ===== src/Governance/Ledger/Costs.antt =====
-- The totals of `get_cost_summary`.
use owlclaw.Base.{
  Bool, List, String, [], ap, false, if◌then◌else◌, some, string_eq, string_pair_eq, sym, true, ℕ,
  ◌==◌, ◌∙◌, ◌∷◌, ◌≡◌,
}
use owlclaw.Base.Dict.{Dict, get, put}
use owlclaw.Base.Int.{+ℤ_assoc, +ℤ_comm, +ℤ_zero, int_laws, pos, ℤ, ◌+ℤ◌}
use owlclaw.Governance.Ledger.{
  InMemoryLedger, InMemoryRecord, add_costs, get_cost_summary, or_zero, total_cost_of,
}

-- The sum of the amounts in a dict.
pub sum_values : Dict String ℤ → ℤ
sum_values [] = pos 0
sum_values ((k, v) ∷ d) = v +ℤ sum_values d

-- Adding to one entry adds to the sum.
sum_values-put :
    (d : Dict String ℤ) (k : String) (v : ℤ)
    → sum_values (put d k (or_zero (get d k) +ℤ v)) ≡ sum_values d +ℤ v
unfolding sum_values put get
sum_values-put [] k v = omega int_laws
sum_values-put ((j, w) ∷ d) k v = go (j == k) (sum_values-put d k v)
  where
    go :
        (b : Bool)
        → sum_values (put d k (or_zero (get d k) +ℤ v)) ≡ sum_values d +ℤ v
        → sum_values (
            if b
            then (j, or_zero (if b then some w else get d k) +ℤ v) ∷ d
            else (j, w) ∷ put d k (or_zero (if b then some w else get d k) +ℤ v))
          ≡ w +ℤ sum_values d +ℤ v
    go true ih = omega int_laws
    go false ih = ap (λ x. w +ℤ x) ih ∙ sym (+ℤ_assoc w (sum_values d) v)

sum_values-add_costs :
    (costs : Dict String ℤ) (rs : List InMemoryRecord)
    → sum_values (add_costs costs rs) ≡ sum_values costs +ℤ total_cost_of rs
unfolding add_costs total_cost_of
sum_values-add_costs costs [] = omega int_laws
sum_values-add_costs costs (r ∷ rs) =
    sum_values-add_costs
      (put costs r.capability_name (or_zero (get costs r.capability_name) +ℤ r.estimated_cost)) rs
    ∙ ap (λ x. x +ℤ total_cost_of rs) (sum_values-put costs r.capability_name r.estimated_cost)
    ∙ +ℤ_assoc (sum_values costs) r.estimated_cost (total_cost_of rs)

-- The costs by capability add up to the total cost of the agent.
pub sum_by_capability :
    (ledger : InMemoryLedger) (tenant_id agent_id : String) (start_date end_date : ℕ)
    → let summary = get_cost_summary ledger tenant_id agent_id start_date end_date in
      sum_values summary.by_capability ≡ summary.total_cost
unfolding get_cost_summary sum_values
sum_by_capability ledger tenant_id agent_id start_date end_date =
    sum_values-add_costs [] _ ∙ +ℤ_comm _ _ ∙ +ℤ_zero _
