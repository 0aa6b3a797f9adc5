-- ===== src/Governance/Ledger/Query.antt =====
-- What `query_records` returns: the records that match, in order, and how many of them.
use Prim.Native.Nat.{min}
use owlclaw.Base.{
  All, All-drop, All-take, Bool, Bool-cases, List, Option, String, ap, arith, count_if, drop, false,
  inl, inr, keep_if, keep_if-All, keep_if-keep_if, keep_if-true, leb, length, length-drop,
  length-keep_if, length-take, none, refl, some, string_eq, string_pair_eq, sym, true, ℕ, ◌&&◌, ◌*◌,
  ◌+◌, ◌-◌, ◌==◌, ◌∙◌, ◌≡◌, ◌⊎◌,
}
use owlclaw.Base.Sort.{
  All-sort_by, IsSorted, drop-IsSorted, length-sort_by, sort_by, sort_by-IsSorted, take-IsSorted,
}
use owlclaw.Governance.Ledger.{
  InMemoryLedger, InMemoryRecord, LedgerQueryFilters, day, keep_equal, keep_from, keep_mode,
  keep_until, mode_is, newest_first, oldest_first, order_results, query_records, select_records,
  slice_from, slice_to,
}

abbrev any_or : Option String → String → Bool
any_or none s = true
any_or (some value) s = s == value

abbrev mode_or : Option String → Option String → Bool
mode_or none mode = true
mode_or (some value) mode = mode_is mode value

abbrev since : Option ℕ → ℕ → Bool
since none t = true
since (some date) t = leb (date * day) t

abbrev until : Option ℕ → ℕ → Bool
until none t = true
until (some date) t = leb t (date * day + (day - 1))

-- Every filter that is set holds of the record, and it belongs to the tenant.
pub matches : String → LedgerQueryFilters → InMemoryRecord → Bool
matches tenant_id filters r =
    r.tenant_id == tenant_id
    && any_or filters.agent_id r.agent_id
    && any_or filters.capability_name r.capability_name
    && any_or filters.status r.status
    && mode_or filters.execution_mode r.execution_mode
    && since filters.start_date r.created_at
    && until filters.end_date r.created_at

module _ (results : List InMemoryRecord) where
  keep_equal_lem :
      (column : InMemoryRecord → String) (o : Option String)
      → keep_equal column o results ≡ keep_if (λ r. any_or o (column r)) results
  unfolding keep_equal
  keep_equal_lem column none = sym (keep_if-true results)
  keep_equal_lem column (some value) = refl

  keep_mode_lem :
      (o : Option String) → keep_mode o results ≡ keep_if (λ r. mode_or o r.execution_mode) results
  unfolding keep_mode
  keep_mode_lem none = sym (keep_if-true results)
  keep_mode_lem (some value) = refl

  keep_from_lem : (o : Option ℕ) → keep_from o results ≡ keep_if (λ r. since o r.created_at) results
  unfolding keep_from
  keep_from_lem none = sym (keep_if-true results)
  keep_from_lem (some date) = refl

  keep_until_lem :
      (o : Option ℕ) → keep_until o results ≡ keep_if (λ r. until o r.created_at) results
  unfolding keep_until
  keep_until_lem none = sym (keep_if-true results)
  keep_until_lem (some date) = refl

  order_results_cases :
      (o : Option String)
      → (order_results o results ≡ results)
        ⊎ (order_results o results ≡ sort_by newest_first results)
        ⊎ (order_results o results ≡ sort_by oldest_first results)
  unfolding order_results
  order_results_cases none = inl refl
  order_results_cases (some order) = elim (Bool-cases (order == "created_at DESC")) [
    | inl e ↦ inr (inl (rw e refl))
    | inr e ↦ elim (Bool-cases (order == "created_at ASC")) [
      | inl e' ↦ inr (inr (rw (e, e') refl))
      | inr e' ↦ inl (rw (e, e') refl)
    ]
  ]

-- The chain of filters is one filter.
pub select_records-matches :
    (ledger : InMemoryLedger) (tenant_id : String) (filters : LedgerQueryFilters)
    → select_records ledger tenant_id filters ≡ keep_if (matches tenant_id filters) ledger.records
unfolding select_records matches
select_records-matches ledger tenant_id filters =
    simp (keep_until_lem, keep_from_lem, keep_mode_lem, keep_equal_lem, keep_if-keep_if) refl

All-order_results :
    (P : InMemoryRecord → Type 0) (o : Option String) (results : List InMemoryRecord)
    → All P results
    → All P (order_results o results)
All-order_results P o results h = elim (order_results_cases results o) [
  | inl e ↦ rw e h
  | inr (inl e) ↦ rw e (All-sort_by newest_first P results h)
  | inr (inr e) ↦ rw e (All-sort_by oldest_first P results h)
]

length-order_results :
    (o : Option String) (results : List InMemoryRecord)
    → length (order_results o results) ≡ length results
length-order_results o results = elim (order_results_cases results o) [
  | inl e ↦ rw e refl
  | inr (inl e) ↦ rw e (length-sort_by newest_first results)
  | inr (inr e) ↦ rw e (length-sort_by oldest_first results)
]

All-slices :
    (P : InMemoryRecord → Type 0) (offset limit : Option ℕ) (results : List InMemoryRecord)
    → All P results
    → All P (slice_to limit (slice_from offset results))
All-slices P none none results h = h
All-slices P none (some l) results h = All-take P l results h
All-slices P (some o) none results h = All-drop P o results h
All-slices P (some o) (some l) results h = All-take P l _ (All-drop P o results h)

-- A query returns only records of its tenant, and only such as every filter that is set admits.
pub query_records-matches :
    (ledger : InMemoryLedger) (tenant_id : String) (filters : LedgerQueryFilters)
    → All (λ r. matches tenant_id filters r ≡ true) (query_records ledger tenant_id filters)
unfolding query_records
query_records-matches ledger tenant_id filters = All-slices _ filters.offset filters.limit _ (
    All-order_results _ filters.order_by _
      (rw select_records-matches (keep_if-All (matches tenant_id filters) ledger.records)))

-- How many of `n` matches a page holds.
abbrev pub page : Option ℕ → Option ℕ → ℕ → ℕ
page none none n = n
page none (some l) n = min l n
page (some o) none n = n - o
page (some o) (some l) n = min l (n - o)

length-slices :
    (offset limit : Option ℕ) (results : List InMemoryRecord)
    → length (slice_to limit (slice_from offset results)) ≡ page offset limit (length results)
length-slices none none results = refl
length-slices none (some l) results = length-take l results
length-slices (some o) none results = length-drop o results
length-slices (some o) (some l) results =
    length-take l (drop o results) ∙ ap (min l) (length-drop o results)

-- A query returns every matching record that its offset and its limit leave: as many as there
-- are in the ledger, less the offset, and at most the limit.
pub length-query_records :
    (ledger : InMemoryLedger) (tenant_id : String) (filters : LedgerQueryFilters)
    → length (query_records ledger tenant_id filters)
      ≡ page filters.offset filters.limit (count_if (matches tenant_id filters) ledger.records)
unfolding query_records
length-query_records ledger tenant_id filters =
    length-slices filters.offset filters.limit _
    ∙ ap (page filters.offset filters.limit) (
        length-order_results filters.order_by _
        ∙ ap length (select_records-matches ledger tenant_id filters)
        ∙ length-keep_if (matches tenant_id filters) ledger.records)

newest_first_asym : (r s : InMemoryRecord) → newest_first r s ≡ true → newest_first s r ≡ false
newest_first_asym r s h = ground arith

newest_first_trans :
    (r s t : InMemoryRecord)
    → newest_first r s ≡ false
    → newest_first s t ≡ false
    → newest_first r t ≡ false
newest_first_trans r s t h k = ground arith

slices-IsSorted :
    (offset limit : Option ℕ) (results : List InMemoryRecord)
    → IsSorted newest_first results
    → IsSorted newest_first (slice_to limit (slice_from offset results))
slices-IsSorted none none results h = h
slices-IsSorted none (some l) results h = take-IsSorted newest_first l results h
slices-IsSorted (some o) none results h = drop-IsSorted newest_first o results h
slices-IsSorted (some o) (some l) results h =
    take-IsSorted newest_first l _ (drop-IsSorted newest_first o results h)

-- A query ordered by "created_at DESC" returns newer records before older ones.
pub query_records-IsSorted :
    (ledger : InMemoryLedger) (tenant_id : String) (filters : LedgerQueryFilters)
    → filters.order_by ≡ some "created_at DESC"
    → IsSorted newest_first (query_records ledger tenant_id filters)
unfolding query_records order_results
query_records-IsSorted ledger tenant_id filters e =
    slices-IsSorted filters.offset filters.limit _
      (rw e (sort_by-IsSorted newest_first newest_first_asym newest_first_trans _))
