-- ===== src/Governance/ApprovalQueue/Examples.antt =====
-- Runs of the queue of owlclaw/governance/approval_queue.py.
use owlclaw.Base.{
  Bool, List, Option, [], false, if◌then◌else◌, none, refl, some, string_eq, string_pair_eq, true,
  ◌<◌, ◌==◌, ◌↔◌, ◌∷◌, ◌≡◌,
}
use owlclaw.Base.Dict.{get}
use owlclaw.Base.Value.{Fields, end}
use owlclaw.Governance.ApprovalQueue.{
  ApprovalQueue, ApprovalRequest, ApprovalStatus, approve, approve_request, approved, failure_of,
  has_expired, is_pending, pending, request_of,
}
use owlclaw.Governance.ApprovalQueue.Decisions.{
  Grants, IsConsistent, IsConsistentQueue, approve-Grants_iff, perform-IsConsistentQueue,
}
use owlclaw.Governance.ApprovalQueue.Finality.{
  Call, approve_call, create_call, expire_call, perform, perform_all, perform_all-get_decided,
  reject_call,
}

abbrev request_of_status : ApprovalStatus → Option Fields → ApprovalRequest
request_of_status status payload = record {
  id = "r1";
  tenant_id = "acme";
  agent_id = "trader";
  skill_name = "buy";
  suggestion = end;
  reasoning = none;
  status = status;
  created_at = 0;
  expires_at = 60;
  updated_at = 0;
  approver = none;
  approved_payload = payload;
}

abbrev queue_with : ApprovalRequest → ApprovalQueue
queue_with request = record { timeout_seconds = 60; items = ("r1", request) ∷ [] }

abbrev waiting : ApprovalRequest
waiting = request_of_status pending none

abbrev done : ApprovalRequest
done = request_of_status approved (some end)

abbrev calls : List Call
calls =
    create_call 5 "r2" "acme" "trader" "sell" end none
    ∷ approve_call 6 "r1" "ann" none
    ∷ reject_call 7 "r1" "bob"
    ∷ expire_call 99
    ∷ []

approved_in_time :
    (approve (queue_with waiting) 59 "r1" "ann" none).1
    ≡ request_of (approve_request 59 "ann" none waiting)
unfolding approve get
approved_in_time = refl

too_late : (approve (queue_with waiting) 60 "r1" "ann" none).1 ≡ failure_of has_expired
unfolding approve get
too_late = refl

found_done : get (queue_with done).items "r1" ≡ some done
unfolding get
found_done = refl

found_waiting : get (queue_with waiting).items "r1" ≡ some waiting
unfolding get
found_waiting = refl

perform_all-get_decided_example : get (perform_all (queue_with done) calls).items "r1" ≡ some done
perform_all-get_decided_example =
    perform_all-get_decided "r1" done refl (queue_with done) calls (refl, (tt, (tt, (tt, tt))))
      found_done

approve-Grants_iff_example :
    Grants 59 "r1" "ann" none waiting (approve (queue_with waiting) 59 "r1" "ann" none)
    ↔ (is_pending waiting.status ≡ true) × (59 < waiting.expires_at)
approve-Grants_iff_example =
    approve-Grants_iff (queue_with waiting) 59 "r1" "ann" none waiting found_waiting

waiting-IsConsistentQueue : IsConsistentQueue (queue_with waiting)
unfolding get
waiting-IsConsistentQueue id = go ("r1" == id)
  where
    go : (b : Bool) → IsConsistent (if b then some waiting else none)
    go true = refl
    go false = tt

perform-IsConsistentQueue_example :
    IsConsistentQueue (perform (queue_with waiting) (approve_call 6 "r1" "ann" (some end)))
perform-IsConsistentQueue_example =
    perform-IsConsistentQueue (queue_with waiting) (approve_call 6 "r1" "ann" (some end))
      waiting-IsConsistentQueue
