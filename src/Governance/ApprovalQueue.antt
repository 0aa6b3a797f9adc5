-- ===== src/Governance/ApprovalQueue.antt =====
-- owlclaw/governance/approval_queue.py: `InMemoryApprovalQueue`.
-- Times are microseconds; `now` and the id that `uuid4` draws are arguments.
pub mod Finality
pub mod Decisions
pub mod Listing
mod Examples
use owlclaw.Base.{
  Bool, List, Option, String, [], count_if, false, if◌then◌else◌, keep_if, leb, ltb, none, not,
  some, string_eq, string_pair_eq, suc, true, zero, ℕ, ◌&&◌, ◌*◌, ◌+◌, ◌==◌,
}
use owlclaw.Base.Dict.{Dict, get, map_values, put, values}
use owlclaw.Base.Int.{negsuc, pos, ℤ}
use owlclaw.Base.Sort.{sort_by}
use owlclaw.Base.Value.{Fields}
use owlclaw.Security.RiskGate.{second}

pub data ApprovalStatus : Type 0 where
  pending approved rejected modified expired : ApprovalStatus

pub record ApprovalRequest : Type 0 where
  pub id : String
  pub tenant_id : String
  pub agent_id : String
  pub skill_name : String
  pub suggestion : Fields
  pub reasoning : Option String
  pub status : ApprovalStatus
  pub created_at : ℕ
  pub expires_at : ℕ
  pub updated_at : ℕ
  pub approver : Option String
  pub approved_payload : Option Fields

pub record ApprovalQueue : Type 0 where
  pub timeout_seconds : ℕ
  pub items : Dict String ApprovalRequest

-- How a call that raises fails: a KeyError and two kinds of ValueError.
pub data Failure : Type 0 where
  unknown_request has_expired : Failure
  not_pending : ApprovalStatus → Failure

pub data Reply : Type 0 where
  request_of : ApprovalRequest → Reply
  failure_of : Failure → Reply

-- `__init__`; `none` is its ValueError.
unfoldable pub new_queue : ℤ → Option ApprovalQueue
new_queue (pos zero) = none
new_queue (pos (suc n)) = some (record { timeout_seconds = suc n; items = [] })
new_queue (negsuc n) = none

-- `create`
unfoldable pub create :
    ApprovalQueue
    → ℕ
    → String
    → String
    → String
    → String
    → Fields
    → Option String
    → ApprovalQueue × ApprovalRequest
create q now id tenant_id agent_id skill_name suggestion reasoning =
    let request : ApprovalRequest = record {
      id = id;
      tenant_id = tenant_id;
      agent_id = agent_id;
      skill_name = skill_name;
      suggestion = suggestion;
      reasoning = reasoning;
      status = pending;
      created_at = now;
      expires_at = now + q.timeout_seconds * second;
      updated_at = now;
      approver = none;
      approved_payload = none;
    } in
    (record q { items = put q.items id request }, request)

abbrev pub is_pending : ApprovalStatus → Bool
is_pending pending = true
is_pending _ = false

-- The test of the loop of `expire_pending`.
abbrev pub is_stale : ℕ → ApprovalRequest → Bool
is_stale now request = is_pending request.status && leb request.expires_at now

unfoldable pub expire_request : ℕ → ApprovalRequest → ApprovalRequest
expire_request now request =
    if is_stale now request then record request { status = expired; updated_at = now } else request

-- `expire_pending`
unfoldable pub expire_pending : ApprovalQueue → ℕ → ApprovalQueue × ℕ
unfolding expire_request
expire_pending q now = (
  record q { items = map_values (expire_request now) q.items },
  count_if (is_stale now) (values q.items),
)

-- What `_require_active` finds: a failure, an overdue request, or one that can be decided.
pub data Check : Type 0 where
  refused : Failure → Check
  overdue : ApprovalRequest → Check
  active : ApprovalRequest → Check

-- The tests of `_require_active` on an entry of the queue.
unfoldable pub check_entry : ℕ → Option ApprovalRequest → Check
check_entry now none = refused unknown_request
check_entry now (some request) =
    if not (is_pending request.status)
    then refused (not_pending request.status)
    else if leb request.expires_at now
    then overdue request
    else active request

-- `approve` and `reject`: a pending request that has run out is marked before the error is raised.
unfoldable pub decide :
    ApprovalQueue → String → Check → (ApprovalRequest → ApprovalRequest) → ApprovalQueue × Reply
decide q request_id (refused failure) change = (q, failure_of failure)
decide q request_id (overdue request) change = (
  record q { items = put q.items request_id (record request { status = expired }) },
  failure_of has_expired,
)
decide q request_id (active request) change =
    (record q { items = put q.items request_id (change request) }, request_of (change request))

unfoldable pub approve_request : ℕ → String → Option Fields → ApprovalRequest → ApprovalRequest
approve_request now approver none request = record request {
  status = approved;
  updated_at = now;
  approver = some approver;
  approved_payload = some request.suggestion;
}
approve_request now approver (some payload) request = record request {
  status = modified;
  updated_at = now;
  approver = some approver;
  approved_payload = some payload;
}

unfoldable pub reject_request : ℕ → String → ApprovalRequest → ApprovalRequest
reject_request now approver request = record request {
  status = rejected;
  updated_at = now;
  approver = some approver;
  approved_payload = none;
}

-- `approve`
unfoldable pub approve : ApprovalQueue → ℕ → String → String → Option Fields → ApprovalQueue × Reply
unfolding check_entry decide approve_request
approve q now request_id approver modified_payload =
    decide q request_id (check_entry now (get q.items request_id))
      (approve_request now approver modified_payload)

-- `reject`
unfoldable pub reject : ApprovalQueue → ℕ → String → String → ApprovalQueue × Reply
unfolding check_entry decide reject_request
reject q now request_id approver =
    decide q request_id (check_entry now (get q.items request_id)) (reject_request now approver)

abbrev pub status_eq : ApprovalStatus → ApprovalStatus → Bool
status_eq pending pending = true
status_eq approved approved = true
status_eq rejected rejected = true
status_eq modified modified = true
status_eq expired expired = true
status_eq _ _ = false

abbrev pub has_status : Option ApprovalStatus → ApprovalRequest → Bool
has_status none request = true
has_status (some status) request = status_eq request.status status

abbrev pub created_later : ApprovalRequest → ApprovalRequest → Bool
created_later a b = ltb b.created_at a.created_at

-- `list`
unfoldable pub list_requests :
    ApprovalQueue → ℕ → String → Option ApprovalStatus → ApprovalQueue × List ApprovalRequest
list_requests q now tenant_id status =
    let q' = (expire_pending q now).0 in
    let rows = keep_if (λ row. row.tenant_id == tenant_id) (values q'.items) in
    (q', sort_by created_later (keep_if (has_status status) rows))
