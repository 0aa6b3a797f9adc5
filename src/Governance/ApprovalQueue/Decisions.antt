-- ===== src/Governance/ApprovalQueue/Decisions.antt =====
-- When a request can be decided, and what a decision leaves in the queue.
use owlclaw.Base.{
  Bool, Bool-cases, Option, String, arith, false, inl, inr, leb, none, refl, some, string_eq,
  string_pair_eq, true, ℕ, ◌<◌, ◌==◌, ◌↔◌, ◌≡◌, ◌≤◌,
}
use owlclaw.Base.Dict.{get, get-map_values, get-put, get-put_self, map_entry, put}
use owlclaw.Base.Value.{Fields}
use owlclaw.Governance.ApprovalQueue.{
  ApprovalQueue, ApprovalRequest, ApprovalStatus, Check, Reply, active, approve, approve_request,
  approved, check_entry, create, decide, expire_pending, expire_request, expired, is_pending,
  list_requests, modified, overdue, refused, reject, reject_request, request_of,
}
use owlclaw.Governance.ApprovalQueue.Finality.{
  Call, approve_call, create_call, expire_call, list_call, perform, reject_call,
}

-- A request carries a payload exactly if it was approved, as it was or modified.
abbrev pub has_payload : ApprovalRequest → Bool
has_payload request = elim request.approved_payload [ none ↦ false | some payload ↦ true ]

abbrev pub is_granted : ApprovalStatus → Bool
is_granted approved = true
is_granted modified = true
is_granted _ = false

abbrev pub IsConsistent : Option ApprovalRequest → Type 0
IsConsistent none = Unit
IsConsistent (some request) = has_payload request ≡ is_granted request.status

abbrev pub IsConsistentQueue : ApprovalQueue → Type 0
IsConsistentQueue q = (id : String) → IsConsistent (get q.items id)

put-IsConsistentQueue :
    (q : ApprovalQueue) (id : String) (request : ApprovalRequest)
    → has_payload request ≡ is_granted request.status
    → IsConsistentQueue q
    → IsConsistentQueue (record q { items = put q.items id request })
put-IsConsistentQueue q id request good h id' = elim (Bool-cases (id == id')) [
  | inl same ↦ rw (get-put, same) good
  | inr new ↦ rw (get-put, new) (h id')
]

-- What `check_entry` tells of the entry.
abbrev Explains : ℕ → Option ApprovalRequest → Check → Type 0
Explains now entry (refused failure) = Unit
Explains now entry (overdue request) =
    (entry ≡ some request) × (is_pending request.status ≡ true) × (request.expires_at ≤ now)
Explains now entry (active request) =
    (entry ≡ some request) × (is_pending request.status ≡ true) × (now < request.expires_at)

check_entry-Explains :
    (now : ℕ) (entry : Option ApprovalRequest) → Explains now entry (check_entry now entry)
unfolding check_entry
check_entry-Explains now none = tt
check_entry-Explains now (some request) = elim (Bool-cases (is_pending request.status)) [
  | inr done ↦ rw done tt
  | inl open_ ↦ elim (Bool-cases (leb request.expires_at now)) [
    | inl late ↦ rw (open_, late) (refl, open_, ground arith)
    | inr early ↦ rw (open_, early) (refl, open_, ground arith)
  ]
]

active_iff :
    (now : ℕ) (request found : ApprovalRequest)
    → check_entry now (some request) ≡ active found
    → (is_pending request.status ≡ true) × (now < request.expires_at)
unfolding check_entry
active_iff now request found e = elim (Bool-cases (is_pending request.status)) [
  | inr done ↦ absurd (cc (rw done at e))
  | inl open_ ↦ elim (Bool-cases (leb request.expires_at now)) [
    | inl late ↦ absurd (cc (rw (open_, late) at e))
    | inr early ↦ (open_, ground arith)
  ]
]

check_entry_active :
    (now : ℕ) (request : ApprovalRequest)
    → is_pending request.status ≡ true
    → now < request.expires_at
    → check_entry now (some request) ≡ active request
unfolding check_entry
check_entry_active now request waits early =
    let in_time : leb request.expires_at now ≡ false = ground arith in rw (waits, in_time) refl

-- What a decision in favour of `request` leaves of it.
pub record IsGranted (now : ℕ) (approver : String) (payload : Option Fields)
    (request granted : ApprovalRequest) : Type 0 where
  pub status_set : granted.status ≡ elim payload [ none ↦ approved | some p ↦ modified ]
  pub payload_set :
      granted.approved_payload ≡ some (elim payload [ none ↦ request.suggestion | some p ↦ p ])
  pub approver_set : granted.approver ≡ some approver
  pub updated : granted.updated_at ≡ now
  pub same_suggestion : granted.suggestion ≡ request.suggestion
  pub same_expiry : granted.expires_at ≡ request.expires_at

approve_request-IsGranted :
    (now : ℕ) (approver : String) (payload : Option Fields) (request : ApprovalRequest)
    → IsGranted now approver payload request (approve_request now approver payload request)
unfolding approve_request
approve_request-IsGranted now approver none request = record {
  status_set = refl;
  payload_set = refl;
  approver_set = refl;
  updated = refl;
  same_suggestion = refl;
  same_expiry = refl;
}
approve_request-IsGranted now approver (some p) request = record {
  status_set = refl;
  payload_set = refl;
  approver_set = refl;
  updated = refl;
  same_suggestion = refl;
  same_expiry = refl;
}

-- The reply and the queue of a call that grants the request `id`.
abbrev pub Grants :
    ℕ → String → String → Option Fields → ApprovalRequest → ApprovalQueue × Reply → Type 0
Grants now id approver payload request (q, reply) =
    (granted : ApprovalRequest) × IsGranted now approver payload request granted
    × (reply ≡ request_of granted)
    × (get q.items id ≡ some granted)

decide-Grants :
    (q : ApprovalQueue) (now : ℕ) (id approver : String) (payload : Option Fields)
    (request : ApprovalRequest) (c : Check)
    → Grants now id approver payload request (decide q id c (approve_request now approver payload))
    → (found : ApprovalRequest) × (c ≡ active found)
unfolding decide
decide-Grants q now id approver payload request (refused failure) (r, g, e, stored) = absurd (cc)
decide-Grants q now id approver payload request (overdue found) (r, g, e, stored) = absurd (cc)
decide-Grants q now id approver payload request (active found) granted = (found, refl)

-- `approve` grants a request that is there exactly if it is pending and has not run out: the request
-- then is approved with the suggestion, or modified with the payload that was given, under the name
-- of the approver and the time of the call, and is what is returned and what the queue holds.
pub approve-Grants_iff :
    (q : ApprovalQueue) (now : ℕ) (id approver : String) (payload : Option Fields)
    (request : ApprovalRequest)
    → get q.items id ≡ some request
    → Grants now id approver payload request (approve q now id approver payload)
      ↔ (is_pending request.status ≡ true) × (now < request.expires_at)
unfolding approve
approve-Grants_iff q now id approver payload request found = (
  (λ granted.
      let (other_one, e) =
        decide-Grants q now id approver payload request (check_entry now (get q.items id))
          granted in
      active_iff now request other_one (rw found at e)),
  (λ (waits, early).
      rw (found, check_entry_active now request waits early)
        (
          approve_request now approver payload request,
          approve_request-IsGranted now approver payload request,
          refl,
          get-put_self q.items id (approve_request now approver payload request),
        )),
)

approve_request-granted :
    (now : ℕ) (approver : String) (payload : Option Fields) (request : ApprovalRequest)
    → has_payload (approve_request now approver payload request)
      ≡ is_granted (approve_request now approver payload request).status
unfolding approve_request
approve_request-granted now approver none request = refl
approve_request-granted now approver (some payload) request = refl

decide-IsConsistentQueue :
    (q : ApprovalQueue) (id : String) (now : ℕ) (change : ApprovalRequest → ApprovalRequest)
    → ((request : ApprovalRequest)
        → has_payload (change request) ≡ is_granted (change request).status)
    → IsConsistentQueue q
    → IsConsistentQueue (decide q id (check_entry now (get q.items id)) change).0
decide-IsConsistentQueue q id now change good h =
    go (check_entry now (get q.items id)) (check_entry-Explains now (get q.items id))
  where
    go : (c : Check) → Explains now (get q.items id) c → IsConsistentQueue (decide q id c change).0
    go (refused failure) e = unfold decide in h
    go (overdue request) e =
        unfold decide in
        put-IsConsistentQueue q id (record request { status = expired })
          (ground (arith, rw (e.0) at (h id))) h
    go (active request) e =
        unfold decide in put-IsConsistentQueue q id (change request) (good request) h

expire-IsConsistentQueue :
    (q : ApprovalQueue) (now : ℕ) → IsConsistentQueue q → IsConsistentQueue (expire_pending q now).0
unfolding expire_pending expire_request
expire-IsConsistentQueue q now h id = rw get-map_values (go (get q.items id) (h id))
  where
    go :
        (entry : Option ApprovalRequest)
        → IsConsistent entry
        → IsConsistent (map_entry (expire_request now) entry)
    go none e = tt
    go (some request) e = ground arith

-- Every call of the queue keeps this: a request carries a payload exactly if it is approved or
-- modified.
pub perform-IsConsistentQueue :
    (q : ApprovalQueue) (c : Call) → IsConsistentQueue q → IsConsistentQueue (perform q c)
unfolding perform approve reject create list_requests reject_request
perform-IsConsistentQueue q (create_call now id tenant agent skill suggestion reasoning) h =
    put-IsConsistentQueue q id _ refl h
perform-IsConsistentQueue q (approve_call now id approver payload) h =
    decide-IsConsistentQueue q id now _ (approve_request-granted now approver payload) h
perform-IsConsistentQueue q (reject_call now id approver) h =
    decide-IsConsistentQueue q id now _ (λ request. refl) h
perform-IsConsistentQueue q (expire_call now) h = expire-IsConsistentQueue q now h
perform-IsConsistentQueue q (list_call now tenant status) h = expire-IsConsistentQueue q now h
