-- ===== src/Governance/ApprovalQueue/Listing.antt =====
-- What a listing shows, and what expiry leaves.
use owlclaw.Base.{
  All, All-keep_if, Bool, List, Option, String, [], arith, count_if, false, keep_if, keep_if-All,
  refl, string_eq, string_pair_eq, true, ℕ, ◌==◌, ◌∷◌, ◌≡◌,
}
use owlclaw.Base.Dict.{Dict, map_values, values}
use owlclaw.Base.Sort.{All-sort_by, IsSorted, sort_by-IsSorted}
use owlclaw.Governance.ApprovalQueue.{
  ApprovalQueue, ApprovalRequest, ApprovalStatus, created_later, expire_pending, expire_request,
  has_status, is_stale, list_requests,
}

values-map_values :
    (P : ApprovalRequest → Type 0) (f : ApprovalRequest → ApprovalRequest)
    (d : Dict String ApprovalRequest)
    → ((request : ApprovalRequest) → P (f request))
    → All P (values (map_values f d))
unfolding values map_values
values-map_values P f [] h = tt
values-map_values P f ((k, v) ∷ d) h = (h v, values-map_values P f d h)

fresh-expire_request :
    (now : ℕ) (request : ApprovalRequest) → is_stale now (expire_request now request) ≡ false
unfolding expire_request
fresh-expire_request now request = ground arith

count_if-none :
    (p : ApprovalRequest → Bool) (rows : List ApprovalRequest)
    → All (λ row. p row ≡ false) rows
    → count_if p rows ≡ 0
count_if-none p [] h = refl
count_if-none p (row ∷ rows) h = ground (arith, count_if-none p rows h.1)

-- A second expiry at the same time finds nothing left to expire.
pub expire_pending_again :
    (q : ApprovalQueue) (now : ℕ) → (expire_pending (expire_pending q now).0 now).1 ≡ 0
unfolding expire_pending
expire_pending_again q now =
    count_if-none (is_stale now) _
      (values-map_values _ (expire_request now) q.items (fresh-expire_request now))

created_later_asym : (a b : ApprovalRequest) → created_later a b ≡ true → created_later b a ≡ false
created_later_asym a b h = ground arith

created_later_trans :
    (a b c : ApprovalRequest)
    → created_later a b ≡ false
    → created_later b c ≡ false
    → created_later a c ≡ false
created_later_trans a b c h k = ground arith

-- A listed request belongs to the tenant, has the status asked for, and is not one that is
-- pending past its time.
pub record IsListed (now : ℕ) (tenant_id : String) (status : Option ApprovalStatus)
    (row : ApprovalRequest) : Type 0 where
  pub owned : (row.tenant_id == tenant_id) ≡ true
  pub wanted : has_status status row ≡ true
  pub current : is_stale now row ≡ false

All_zip3 :
    (now : ℕ) (tenant_id : String) (status : Option ApprovalStatus) (rows : List ApprovalRequest)
    → All (λ row. (row.tenant_id == tenant_id) ≡ true) rows
    → All (λ row. has_status status row ≡ true) rows
    → All (λ row. is_stale now row ≡ false) rows
    → All (IsListed now tenant_id status) rows
All_zip3 now tenant_id status [] a b c = tt
All_zip3 now tenant_id status (row ∷ rows) a b c = (
  record { owned = a.0; wanted = b.0; current = c.0 },
  All_zip3 now tenant_id status rows a.1 b.1 c.1,
)

-- A listing holds only requests of its tenant with the wanted status, none of them pending past
-- its time, and the older ones first.
pub list_requests_lem :
    (q : ApprovalQueue) (now : ℕ) (tenant_id : String) (status : Option ApprovalStatus)
    → let rows = (list_requests q now tenant_id status).1 in
      All (IsListed now tenant_id status) rows × IsSorted created_later rows
unfolding list_requests expire_pending
list_requests_lem q now tenant_id status =
    let stored = values (map_values (expire_request now) q.items) in
    let owned = keep_if (λ (row : ApprovalRequest). row.tenant_id == tenant_id) stored in
    let fresh =
      values-map_values (λ row. is_stale now row ≡ false) (expire_request now) q.items
        (fresh-expire_request now) in
    (
      All-sort_by created_later (IsListed now tenant_id status) (keep_if (has_status status) owned)
          (All_zip3 now tenant_id status _
            (All-keep_if (λ row. (row.tenant_id == tenant_id) ≡ true) (has_status status) owned
              (keep_if-All _ stored))
            (keep_if-All (has_status status) owned)
            (All-keep_if (λ row. is_stale now row ≡ false) (has_status status) owned
              (All-keep_if (λ row. is_stale now row ≡ false) _ stored fresh))),
      sort_by-IsSorted created_later created_later_asym created_later_trans _,
    )
