-- ===== src/Security/RiskGate/Queue.antt =====
-- The queue of paused operations: what confirming, rejecting and expiring do to it.
use owlclaw.Base.{
  All, Bool, Bool-cases, List, String, [], arith, false, if◌then◌else◌, inl, inr, leb, member, none,
  not, refl, string_eq, string_pair_eq, ℕ, ◌&&◌, ◌*◌, ◌+◌, ◌==◌, ◌∷◌, ◌≡◌, ◌≢◌, ◌⊎◌,
}
use owlclaw.Base.Dict.{get, get-put, get-put_self, get-remove, get-remove_self}
use owlclaw.Base.Dict.Keys.{
  IsUnique, contains-keys_if, get-remove_all, holds, put-IsUnique, remove-IsUnique,
  remove_all-IsUnique,
}
use owlclaw.Security.RiskGate.{
  AuditEvent, RiskGate, audit, audit_timeouts, confirm, evaluate, expire_pending, is_overdue,
  is_some, normalize_level, pause, pause_operation, pending_count, reject_operation,
  risk_confirm_missing, risk_confirmed, risk_reject_missing, risk_rejected_manual, risk_timeout,
  second, supported_levels, take_operation,
}

-- Every operation has one entry.
abbrev pub IsWellFormed : RiskGate → Type 0
IsWellFormed g = IsUnique g.pending

abbrev pub lapsed : RiskGate → ℕ → String → Bool
lapsed g now op_id = holds (is_overdue g.timeout_seconds now) (get g.pending op_id)

pub pending-audit_timeouts :
    (g : RiskGate) (ids : List String) → (audit_timeouts g ids).pending ≡ g.pending
unfolding audit_timeouts
pending-audit_timeouts g [] = refl
pending-audit_timeouts g (op_id ∷ ids) = pending-audit_timeouts (audit g (risk_timeout op_id)) ids

-- After expiry an operation is found exactly if it was there and is not overdue.
pub get-expire_pending :
    (g : RiskGate) (now : ℕ) (op_id : String)
    → IsWellFormed g
    → get (expire_pending g now).0.pending op_id
      ≡ (if lapsed g now op_id then none else get g.pending op_id)
unfolding expire_pending
get-expire_pending g now op_id h =
    rw (pending-audit_timeouts, get-remove_all, contains-keys_if) refl

pub expire_pending-IsWellFormed :
    (g : RiskGate) (now : ℕ) → IsWellFormed g → IsWellFormed (expire_pending g now).0
unfolding expire_pending
expire_pending-IsWellFormed g now h = rw pending-audit_timeouts (remove_all-IsUnique _ _ h)

module _ (g : RiskGate) (now : ℕ) (op_id : String) (h : IsWellFormed g) where
  -- What `confirm` and `reject` leave in the queue.
  pub get-take_operation :
      (found missing : String → AuditEvent) (another : String)
      → get (take_operation found missing g now op_id).0.pending another ≡ (
          if op_id == another
          then none
          else if lapsed g now another
          then none
          else get g.pending another)
  unfolding take_operation
  get-take_operation found missing another =
      rw (get-remove, get-expire_pending g now another h) refl

  pub confirm_succeeds :
      (confirm g now op_id).1
      ≡ (if lapsed g now op_id then false else is_some (get g.pending op_id))
  unfolding confirm
  confirm_succeeds = rw (get-expire_pending g now op_id h) (ground arith)

  pub confirm-IsWellFormed : IsWellFormed (confirm g now op_id).0
  unfolding confirm
  confirm-IsWellFormed = remove-IsUnique _ op_id (expire_pending-IsWellFormed g now h)

pub get-confirm_self :
    (g : RiskGate) (now : ℕ) (op_id : String) → get (confirm g now op_id).0.pending op_id ≡ none
unfolding confirm
get-confirm_self g now op_id = get-remove_self _ op_id

-- Either an evaluation queues the operation, or it does not pause and leaves the queue as it was.
abbrev pub QueuesOrKeeps : RiskGate → ℕ → String → String → String → Bool → ℕ → Type 0
QueuesOrKeeps g now op_id name level required ratio =
    let outcome = evaluate g now op_id name level required ratio in
    ((reason : String) × (outcome
        ≡ pause_operation g now op_id name (normalize_level level) reason))
    ⊎ ((outcome.1 ≢ pause) × (outcome.0.pending ≡ g.pending))

pub evaluate_cases :
    (g : RiskGate) (now : ℕ) (op_id name level : String) (required : Bool) (ratio : ℕ)
    → QueuesOrKeeps g now op_id name level required ratio
unfolding evaluate audit
evaluate_cases g now op_id name level required ratio =
    elim (Bool-cases (normalize_level level == "critical")) [
      | inl critical ↦ inl ("critical capability", rw critical refl)
      | inr calm ↦ elim (Bool-cases required) [
        | inl needed ↦ inl ("manual confirmation required", rw (calm, needed) refl)
        | inr free ↦ elim (Bool-cases (normalize_level level == "high" && leb 800 ratio)) [
          | inl costly ↦ inl ("budget ratio exceeds threshold", rw (calm, free, costly) refl)
          | inr cheap ↦ elim (Bool-cases (not (member (normalize_level level) supported_levels))) [
            | inl unknown ↦
                inr
                  (rw (calm, free, cheap, unknown) (λ e. cc), rw (calm, free, cheap, unknown) refl)
            | inr known ↦
                inr (rw (calm, free, cheap, known) (λ e. cc), rw (calm, free, cheap, known) refl)
          ]
        ]
      ]
    ]

pub evaluate-IsWellFormed :
    (g : RiskGate) (now : ℕ) (op_id name level : String) (required : Bool) (ratio : ℕ)
    → IsWellFormed g
    → IsWellFormed (evaluate g now op_id name level required ratio).0
unfolding pause_operation audit
evaluate-IsWellFormed g now op_id name level required ratio h =
    elim (evaluate_cases g now op_id name level required ratio) [
      | inl (reason, e) ↦ rw e (put-IsUnique g.pending op_id _ h)
      | inr (_, e) ↦ rw e h
    ]

pause_operation-IsWellFormed :
    (g : RiskGate) (now : ℕ) (op_id name level reason : String)
    → IsWellFormed g
    → IsWellFormed (pause_operation g now op_id name level reason).0
unfolding pause_operation audit
pause_operation-IsWellFormed g now op_id name level reason h = put-IsUnique g.pending op_id _ h

confirm-pause_operation :
    (g : RiskGate) (t now : ℕ) (op_id name level reason : String)
    → IsWellFormed g
    → (confirm (pause_operation g t op_id name level reason).0 now op_id).1
      ≡ leb now (t + g.timeout_seconds * second)
unfolding pause_operation audit is_overdue
confirm-pause_operation g t now op_id name level reason h =
    rw
      (confirm_succeeds (pause_operation g t op_id name level reason).0 now op_id
        (pause_operation-IsWellFormed g t op_id name level reason h))
      (simp get-put_self (ground arith))

-- An operation that was paused at time `t` is confirmed at time `now` exactly if `now` is not past
-- `t` by more than the timeout.
pub confirm-evaluate :
    (g : RiskGate) (t : ℕ) (op_id name level : String) (required : Bool) (ratio now : ℕ)
    → IsWellFormed g
    → (evaluate g t op_id name level required ratio).1 ≡ pause
    → (confirm (evaluate g t op_id name level required ratio).0 now op_id).1
      ≡ leb now (t + g.timeout_seconds * second)
confirm-evaluate g t op_id name level required ratio now h paused =
    elim (evaluate_cases g t op_id name level required ratio) [
      | inl (reason, e) ↦
          rw e (confirm-pause_operation g t now op_id name (normalize_level level) reason h)
      | inr (kept, _) ↦ absurd (kept paused)
    ]

-- A call of the gate: `evaluate`, `confirm`, `reject` or `pending_count`.
pub data GateCall : Type 0 where
  evaluates : ℕ → String → String → String → Bool → ℕ → GateCall
  confirms rejects : ℕ → String → GateCall
  counts : ℕ → GateCall

unfoldable pub perform : RiskGate → GateCall → RiskGate
perform g (evaluates now op_id name level required ratio) =
    (evaluate g now op_id name level required ratio).0
perform g (confirms now op_id) = (confirm g now op_id).0
perform g (rejects now op_id) = (reject_operation g now op_id).0
perform g (counts now) = (pending_count g now).0

unfoldable pub perform_all : RiskGate → List GateCall → RiskGate
unfolding perform
perform_all g [] = g
perform_all g (call ∷ calls) = perform_all (perform g call) calls

-- The call does not draw the id `op_id` for an operation.
abbrev pub DrawsOther : String → GateCall → Type 0
DrawsOther op_id (evaluates now drawn name level required ratio) = (drawn == op_id) ≡ false
DrawsOther op_id _ = Unit

module _ (op_id : String) where
  -- No operation has the id.
  abbrev IsGone : RiskGate → Type 0
  IsGone g = IsWellFormed g × (get g.pending op_id ≡ none)

  expire-IsGone : (g : RiskGate) (now : ℕ) → IsGone g → IsGone (expire_pending g now).0
  expire-IsGone g now (h, gone) =
      (expire_pending-IsWellFormed g now h, rw (get-expire_pending g now op_id h, gone) refl)

  take-IsGone :
      (found missing : String → AuditEvent) (g : RiskGate) (now : ℕ) (taken : String)
      → IsGone g
      → IsGone (take_operation found missing g now taken).0
  unfolding take_operation audit
  take-IsGone found missing g now taken h =
      let (formed, gone) = expire-IsGone g now h in
      (remove-IsUnique _ taken formed, rw (get-remove, gone) (ground arith))

  take_self-IsGone :
      (found missing : String → AuditEvent) (g : RiskGate) (now : ℕ)
      → IsWellFormed g
      → IsGone (take_operation found missing g now op_id).0
  unfolding take_operation audit
  take_self-IsGone found missing g now h =
      (remove-IsUnique _ op_id (expire_pending-IsWellFormed g now h), get-remove_self _ op_id)

  evaluate-IsGone :
      (g : RiskGate) (now : ℕ) (drawn name level : String) (required : Bool) (ratio : ℕ)
      → (drawn == op_id) ≡ false
      → IsGone g
      → IsGone (evaluate g now drawn name level required ratio).0
  unfolding pause_operation audit
  evaluate-IsGone g now drawn name level required ratio distinct (h, gone) = (
    evaluate-IsWellFormed g now drawn name level required ratio h,
    elim (evaluate_cases g now drawn name level required ratio) [
      | inl (reason, e) ↦ rw e (rw (get-put, distinct) gone)
      | inr (_, e) ↦ rw e gone
    ],
  )

  perform_all-IsGone :
      (calls : List GateCall) (g : RiskGate)
      → All (DrawsOther op_id) calls
      → IsGone g
      → IsGone (perform_all g calls)
  unfolding perform_all confirm reject_operation pending_count
  perform_all-IsGone [] g fresh h = h
  perform_all-IsGone (evaluates now drawn name level required ratio ∷ calls) g fresh h =
      perform_all-IsGone calls (evaluate g now drawn name level required ratio).0 fresh.1
        (evaluate-IsGone g now drawn name level required ratio fresh.0 h)
  perform_all-IsGone (confirms now taken ∷ calls) g fresh h =
      perform_all-IsGone calls (confirm g now taken).0 fresh.1
        (take-IsGone risk_confirmed risk_confirm_missing g now taken h)
  perform_all-IsGone (rejects now taken ∷ calls) g fresh h =
      perform_all-IsGone calls (reject_operation g now taken).0 fresh.1
        (take-IsGone risk_rejected_manual risk_reject_missing g now taken h)
  perform_all-IsGone (counts now ∷ calls) g fresh h =
      perform_all-IsGone calls (pending_count g now).0 fresh.1 (expire-IsGone g now h)

-- Once a call of `confirm` or of `reject` has been made for an operation, no later `confirm` or
-- `reject` of it succeeds, whatever the times and whatever calls come in between, where no later
-- evaluation draws the same id.
pub decided_once :
    (g : RiskGate) (first : GateCall) (calls : List GateCall) (t now : ℕ) (op_id : String)
    → (first ≡ confirms t op_id) ⊎ (first ≡ rejects t op_id)
    → IsWellFormed g
    → All (DrawsOther op_id) calls
    → let g' = perform_all (perform g first) calls in
      ((confirm g' now op_id).1 ≡ false) × ((reject_operation g' now op_id).1 ≡ false)
unfolding confirm reject_operation perform
decided_once g first calls t now op_id which h fresh =
    let start : IsGone op_id (perform g first) = elim which [
      | inl e ↦ rw e (take_self-IsGone op_id risk_confirmed risk_confirm_missing g t h)
      | inr e ↦ rw e (take_self-IsGone op_id risk_rejected_manual risk_reject_missing g t h)
    ] in
    let (formed, gone) = perform_all-IsGone op_id calls (perform g first) fresh start in
    rw (get-expire_pending (perform_all (perform g first) calls) now op_id formed, gone)
      (ground arith)
