-- ===== src/Governance/ApprovalQueue/Finality.antt =====
-- A decision is final: no call changes a request that is no longer pending.
use owlclaw.Base.{
  All, Bool-cases, List, Option, String, [], ap, eq_iff, false, inl, inr, refl, some, string_eq,
  string_pair_eq, ℕ, ◌==◌, ◌∙◌, ◌∷◌, ◌≡◌,
}
use owlclaw.Base.Dict.{get, get-map_values, get-put}
use owlclaw.Base.Value.{Fields}
use owlclaw.Governance.ApprovalQueue.{
  ApprovalQueue, ApprovalRequest, ApprovalStatus, Check, active, approve, check_entry, create,
  decide, expire_pending, expire_request, is_pending, list_requests, not_pending, overdue, refused,
  reject,
}

-- A call of the queue's interface.
pub data Call : Type 0 where
  create_call : ℕ → String → String → String → String → Fields → Option String → Call
  approve_call : ℕ → String → String → Option Fields → Call
  reject_call : ℕ → String → String → Call
  expire_call : ℕ → Call
  list_call : ℕ → String → Option ApprovalStatus → Call

unfoldable pub perform : ApprovalQueue → Call → ApprovalQueue
perform q (create_call now id tenant agent skill suggestion reasoning) =
    (create q now id tenant agent skill suggestion reasoning).0
perform q (approve_call now id approver payload) = (approve q now id approver payload).0
perform q (reject_call now id approver) = (reject q now id approver).0
perform q (expire_call now) = (expire_pending q now).0
perform q (list_call now tenant status) = (list_requests q now tenant status).0

unfoldable pub perform_all : ApprovalQueue → List Call → ApprovalQueue
perform_all q [] = q
perform_all q (c ∷ cs) = perform_all (perform q c) cs

-- A `create` does not draw the id again, as `uuid4` promises.
abbrev pub Spares : String → Call → Type 0
Spares id (create_call now id' tenant agent skill suggestion reasoning) = (id' == id) ≡ false
Spares id _ = Unit

-- A decision on one request leaves the others alone.
pub decide_ne :
    (q : ApprovalQueue) (id id' : String) (c : Check) (change : ApprovalRequest → ApprovalRequest)
    → (id' == id) ≡ false
    → get (decide q id' c change).0.items id ≡ get q.items id
unfolding decide
decide_ne q id id' (refused failure) change new = refl
decide_ne q id id' (overdue request) change new = rw (get-put, new) refl
decide_ne q id id' (active request) change new = rw (get-put, new) refl

module _ (id : String) (request : ApprovalRequest)
    (decided : is_pending request.status ≡ false) where
  check_decided : (now : ℕ) → check_entry now (some request) ≡ refused (not_pending request.status)
  unfolding check_entry
  check_decided now = rw decided refl

  decide_decided :
      (q : ApprovalQueue) (now : ℕ) (id' : String) (change : ApprovalRequest → ApprovalRequest)
      → get q.items id ≡ some request
      → get (decide q id' (check_entry now (get q.items id')) change).0.items id ≡ some request
  unfolding decide
  decide_decided q now id' change found = elim (Bool-cases (id' == id)) [
    | inl same ↦ rw ((eq_iff id' id).0 same, found, check_decided now) found
    | inr new ↦ decide_ne q id id' (check_entry now (get q.items id')) change new ∙ found
  ]

  expire_decided : (now : ℕ) → expire_request now request ≡ request
  unfolding expire_request
  expire_decided now = rw decided refl

  expire_keeps :
      (q : ApprovalQueue) (now : ℕ)
      → get q.items id ≡ some request
      → get (expire_pending q now).0.items id ≡ some request
  unfolding expire_pending
  expire_keeps q now found = rw (get-map_values, found) (ap some (expire_decided now))

  perform_keeps :
      (q : ApprovalQueue) (c : Call)
      → Spares id c
      → get q.items id ≡ some request
      → get (perform q c).items id ≡ some request
  unfolding perform approve reject create list_requests
  perform_keeps q (create_call now id' tenant agent skill suggestion reasoning) new found =
      rw (get-put, new) found
  perform_keeps q (approve_call now id' approver payload) _ found = decide_decided q now id' _ found
  perform_keeps q (reject_call now id' approver) _ found = decide_decided q now id' _ found
  perform_keeps q (expire_call now) _ found = expire_keeps q now found
  perform_keeps q (list_call now tenant status) _ found = expire_keeps q now found

  -- A request that is no longer pending stays as it is, field for field, through every sequence of
  -- calls of the queue that does not draw its id again.
  pub perform_all-get_decided :
      (q : ApprovalQueue) (calls : List Call)
      → All (Spares id) calls
      → get q.items id ≡ some request
      → get (perform_all q calls).items id ≡ some request
  unfolding perform_all
  perform_all-get_decided q [] spares found = found
  perform_all-get_decided q (c ∷ cs) spares found =
      perform_all-get_decided (perform q c) cs spares.1 (perform_keeps q c spares.0 found)
