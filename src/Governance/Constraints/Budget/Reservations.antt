-- ===== src/Governance/Constraints/Budget/Reservations.antt =====
-- What the reservations promise: costly capabilities never overdraw the budget.
use owlclaw.Base.{
  Bool-cases, List, Option, Option-cases, String, [], all_of, ap, arith, false, inl, inr, keep_if,
  none, refl, some, string_eq, string_pair_eq, sym, true, ℕ, ◌&&◌, ◌++◌, ◌∙◌, ◌∷◌, ◌≡◌, ◌⊎◌,
}
use owlclaw.Base.Dict.{get, get-put_self, get-remove_self}
use owlclaw.Base.Int.{+ℤ_assoc, int_laws, leb_ℤ, ltb_ℤ, pos, ℤ, ◌+ℤ◌, ◌-ℤ◌, ◌<ℤ◌, ◌≤ℤ◌}
use owlclaw.Governance.Constraints.Budget.{
  Amount, BudgetConstraint, Reservation, amount, entries_of, evaluate_budget, evaluate_limit,
  exhausted, is_live, or_same, purge_entries, purge_expired, refund_reservation, release_head,
  release_last, reserve, reserved_total, safe_decimal, store_entries,
}

entries-store_entries :
    (b : BudgetConstraint) (key : String × String) (entries : List Reservation)
    → entries_of (store_entries b key entries) key ≡ entries
entries-store_entries b key [] = rw (get-remove_self b.reservations key) refl
entries-store_entries b key (e ∷ es) = rw (get-put_self b.reservations key (e ∷ es)) refl

-- Purging leaves the reservations that have not run out.
pub entries-purge_expired :
    (b : BudgetConstraint) (key : String × String) (now : ℕ)
    → entries_of (purge_expired b key now) key ≡ keep_if (is_live now) (entries_of b key)
unfolding purge_expired
entries-purge_expired b key now = go (entries_of b key) refl
  where
    go :
        (entries : List Reservation)
        → entries_of b key ≡ entries
        → entries_of (purge_entries b key now entries) key ≡ keep_if (is_live now) entries
    go [] e = e
    go (x ∷ xs) e = entries-store_entries b key (keep_if (is_live now) (x ∷ xs))

reserved_total-append :
    (xs ys : List Reservation) → reserved_total (xs ++ ys) ≡ reserved_total xs +ℤ reserved_total ys
unfolding reserved_total
reserved_total-append [] ys = omega int_laws
reserved_total-append ((t, c) ∷ xs) ys =
    ap (λ x. c +ℤ x) (reserved_total-append xs ys)
    ∙ sym (+ℤ_assoc c (reserved_total xs) (reserved_total ys))

abbrev pub sum_costs : List Reservation → ℤ
sum_costs [] = pos 0
sum_costs (entry ∷ entries) = entry.1 +ℤ sum_costs entries

reserved_total_lem : (entries : List Reservation) → reserved_total entries ≡ sum_costs entries
unfolding reserved_total
reserved_total_lem [] = refl
reserved_total_lem ((t, c) ∷ es) = ap (λ x. c +ℤ x) (reserved_total_lem es)

affordable : (remaining cost : ℤ) → exhausted remaining cost ≡ false → cost ≤ℤ remaining
affordable remaining cost h = ground arith

room_left :
    (limit used reserved cost : ℤ)
    → exhausted (limit -ℤ used -ℤ reserved) cost ≡ false
    → used +ℤ (reserved +ℤ (cost +ℤ pos 0)) ≤ℤ limit
room_left limit used reserved cost h =
    omega (int_laws, affordable (limit -ℤ used -ℤ reserved) cost h)

module _ (b : BudgetConstraint) (key : String × String) (now : ℕ)
    (limit used_cost estimated_cost : ℤ) where
  -- A costly capability is shown only if what the agent has used, with all that is reserved for
  -- it after the call, is within the limit.
  pub reserve_within :
      ltb_ℤ b.high_cost_threshold estimated_cost ≡ true
      → (reserve b key now limit used_cost estimated_cost).0.visible ≡ true
      → used_cost
          +ℤ reserved_total (entries_of (reserve b key now limit used_cost estimated_cost).1 key)
        ≤ℤ limit
  unfolding reserve
  reserve_within costly visible =
      elim (Bool-cases (
        exhausted (limit -ℤ used_cost -ℤ reserved_total (entries_of (purge_expired b key now) key))
          estimated_cost)) [
            | inl over ↦ absurd (cc (rw (costly, over) at visible))
            | inr room ↦
                rw (costly, room, get-put_self, reserved_total-append)
                  (room_left limit used_cost _ estimated_cost room)
          ]

  -- A capability that is hidden reserves nothing: the live reservations are what they were.
  pub entries-reserve_hidden :
      (reserve b key now limit used_cost estimated_cost).0.visible ≡ false
      → entries_of (reserve b key now limit used_cost estimated_cost).1 key
        ≡ keep_if (is_live now) (entries_of b key)
  unfolding reserve
  entries-reserve_hidden h = elim (Bool-cases (ltb_ℤ b.high_cost_threshold estimated_cost)) [
    | inr cheap ↦ absurd (cc (rw cheap at h))
    | inl costly ↦
        elim (Bool-cases (
          exhausted
            (limit -ℤ used_cost -ℤ reserved_total (entries_of (purge_expired b key now) key))
            estimated_cost)) [
              | inl over ↦ rw (costly, over) (entries-purge_expired b key now)
              | inr room ↦ absurd (cc (rw (costly, room) at h))
            ]
  ]

module _ (b : BudgetConstraint) (tenant_id agent_id : String) (now : ℕ)
    (used_cost default_cost limit : ℤ) (estimate : Amount) where
  -- Under a limit that is set and not falsy, a capability whose estimated cost is above the threshold
  -- is shown only if what the ledger reports as used, with the costs of all reservations that are left
  -- for the agent after the call, is within the limit.
  pub evaluate_budget_within :
      get b.budget_limits agent_id ≡ some (amount (some limit))
      → b.high_cost_threshold <ℤ safe_decimal estimate default_cost
      → let (result, b') =
          evaluate_budget b tenant_id agent_id now used_cost default_cost estimate in
        result.visible ≡ true
        → used_cost +ℤ sum_costs (entries_of b' (tenant_id, agent_id)) ≤ℤ limit
  unfolding evaluate_budget evaluate_limit safe_decimal
  evaluate_budget_within found costly visible =
      let above : ltb_ℤ b.high_cost_threshold (safe_decimal estimate default_cost) ≡ true =
        ground arith in
      let after =
        reserve b (tenant_id, agent_id) now limit used_cost (safe_decimal estimate default_cost) in
      rw (found, ← reserved_total_lem (entries_of after.1 (tenant_id, agent_id)))
        (reserve_within b (tenant_id, agent_id) now limit used_cost
          (safe_decimal estimate default_cost) above (rw found at visible))

-- `rest` is `entries` without its last reservation of at least `safe_amount`.
pub record IsReleased (safe_amount : ℤ) (entries rest : List Reservation) : Type 0 where
  pub before : List Reservation
  pub after : List Reservation
  pub released : Reservation
  pub split : entries ≡ before ++ released ∷ after
  pub joined : rest ≡ before ++ after
  pub enough : safe_amount ≤ℤ released.1
  pub last : all_of (λ e. ltb_ℤ e.1 safe_amount) after ≡ true

release_last-none :
    (safe_amount : ℤ) (entries : List Reservation)
    → release_last safe_amount entries ≡ none
    → all_of (λ e. ltb_ℤ e.1 safe_amount) entries ≡ true
unfolding release_last
release_last-none safe_amount [] e = refl
release_last-none safe_amount ((t, c) ∷ es) e =
    go (release_last safe_amount es) (release_last-none safe_amount es) e
  where
    go :
        (o : Option (List Reservation))
        → (o ≡ none → all_of (λ (e : Reservation). ltb_ℤ e.1 safe_amount) es ≡ true)
        → release_head safe_amount (t, c) es o ≡ none
        → (ltb_ℤ c safe_amount && all_of (λ (e : Reservation). ltb_ℤ e.1 safe_amount) es) ≡ true
    go (some es') ih e = absurd (cc)
    go none ih e = ground (arith, ih refl)

pub release_last-IsReleased :
    (safe_amount : ℤ) (entries rest : List Reservation)
    → release_last safe_amount entries ≡ some rest
    → IsReleased safe_amount entries rest
unfolding release_last
release_last-IsReleased safe_amount [] rest e = absurd (cc)
release_last-IsReleased safe_amount ((t, c) ∷ es) rest e =
    go (release_last safe_amount es) refl (release_last-IsReleased safe_amount es) e
  where
    go :
        (o : Option (List Reservation))
        → release_last safe_amount es ≡ o
        → ((r : List Reservation)
            → release_last safe_amount es ≡ some r
            → IsReleased safe_amount es r)
        → release_head safe_amount (t, c) es o ≡ some rest
        → IsReleased safe_amount ((t, c) ∷ es) rest
    go (some es') p ih e =
        let r = ih es' p in
        record {
          before = (t, c) ∷ r.before;
          after = r.after;
          released = r.released;
          split = ap (λ xs. (t, c) ∷ xs) r.split;
          joined = cc (r.joined);
          enough = r.enough;
          last = r.last;
        }
    go none p ih e = record {
      before = [];
      after = es;
      released = (t, c);
      split = refl;
      joined = ground arith;
      enough = ground arith;
      last = release_last-none safe_amount es p;
    }

release_cases :
    (safe_amount : ℤ) (entries : List Reservation)
    → let after = or_same entries (release_last safe_amount entries) in
      IsReleased safe_amount entries after
      ⊎ (all_of (λ e. ltb_ℤ e.1 safe_amount) entries ≡ true) × (after ≡ entries)
release_cases safe_amount entries = elim (Option-cases (release_last safe_amount entries)) [
  | inl e ↦ inr (release_last-none safe_amount entries e, rw e refl)
  | inr (rest, e) ↦ inl (rw e (release_last-IsReleased safe_amount entries rest e))
]

module _ (b : BudgetConstraint) (tenant_id agent_id : String) (now : ℕ) (safe_amount : ℤ)
    (positive : leb_ℤ safe_amount (pos 0) ≡ false) where
  -- A refund of a positive amount drops the agent's last live reservation of at least that
  -- amount; if there is none, it drops only what has run out.
  pub refund_reservation_lem :
      let entries = keep_if (is_live now) (entries_of b (tenant_id, agent_id)) in
      let after =
        entries_of
          (refund_reservation b tenant_id agent_id now (amount (some safe_amount)))
          (tenant_id, agent_id) in
      IsReleased safe_amount entries after
      ⊎ (all_of (λ e. ltb_ℤ e.1 safe_amount) entries ≡ true) × (after ≡ entries)
  unfolding refund_reservation safe_decimal
  refund_reservation_lem =
      rw (positive, entries-store_entries, entries-purge_expired) (release_cases safe_amount _)
