-- ===== src/Owlhub/Review/Lifecycle.antt =====
-- The life of a review of owlclaw/owlhub/review/system.py, from submission to decision and appeal.
use owlclaw.Base.{
  Bool-cases, String, [], concat, false, if◌then◌else◌, inl, inr, refl, some, strip, true, ◌∷◌, ◌≡◌,
}
use owlclaw.Base.Dict.{get-put_self}
use owlclaw.Owlhub.Ids.{is_component, review_id_of, validate_review_id}
use owlclaw.Owlhub.Ids.Laws.{validate-review_id_of, validate_component-valid}
use owlclaw.Owlhub.Review.{
  Result, ReviewRecord, ReviewStatus, ReviewSystem, ValidationResult, approve, approved,
  build_record, decide, failed, is_pending, join_messages, ok, only_pending, or_text, pending,
  read_record, reject, rejected, store_submission, submit, with_file, write_record,
}

abbrev pub status_for : ValidationResult → ReviewStatus
status_for v = if v.is_valid then pending else rejected

abbrev pub HasStatus : ReviewStatus → Result ReviewRecord → Type 0
HasStatus status (ok found) = found.status ≡ status
HasStatus status (failed why) = ⊥

read-write :
    (r : ReviewSystem) (new : ReviewRecord) (id : String)
    → validate_review_id id ≡ some id
    → new.review_id ≡ id
    → read_record (write_record r new).0 id ≡ ok new
unfolding read_record write_record with_file
read-write r new id valid same = rw (same, valid, get-put_self) refl

write-ok :
    (r : ReviewSystem) (new : ReviewRecord) (id : String)
    → validate_review_id id ≡ some id
    → new.review_id ≡ id
    → (write_record r new).1 ≡ ok new
unfolding write_record
write-ok r new id valid same = rw (same, valid) refl

module _ (r : ReviewSystem) (now skill_name version publisher : String)
    (p : is_component publisher ≡ true) (s : is_component skill_name ≡ true)
    (w : is_component version ≡ true) where
  abbrev built : ReviewStatus → String → ReviewRecord
  built status comments = record {
    review_id = review_id_of publisher skill_name version;
    skill_name = skill_name;
    version = version;
    publisher = publisher;
    status = status;
    comments = comments;
    reviewed_at = now;
  }

  store_submission_lem :
      (status : ReviewStatus) (comments : String)
      → store_submission r now skill_name version publisher status comments
        ≡ write_record r (built status comments)
  unfolding store_submission build_record
  store_submission_lem status comments =
      rw
        (
          validate_component-valid publisher p,
          validate_component-valid skill_name s,
          validate_component-valid version w,
        )
        refl

  read-store :
      (status : ReviewStatus) (comments : String)
      → (read_record
            (store_submission r now skill_name version publisher status comments).0
            (review_id_of publisher skill_name version)
          ≡ (store_submission r now skill_name version publisher status comments).1)
        × HasStatus status (store_submission r now skill_name version publisher status comments).1
  read-store status comments =
      let valid = validate-review_id_of publisher skill_name version p s w in
      let new = built status comments in
      rw
        (
          store_submission_lem status comments,
          write-ok r new (review_id_of publisher skill_name version) valid refl,
        )
        (read-write r new (review_id_of publisher skill_name version) valid refl, refl)

-- Three valid parts are always stored, whatever the directory held before, a decided review of the
-- same id included: the record that is then read under the id is the one that the call returned,
-- and it is pending or rejected as the validator said.
pub read-submit :
    (r : ReviewSystem) (now default : String) (v : ValidationResult)
    (skill_name version publisher : String)
    → is_component publisher ≡ true
    → is_component skill_name ≡ true
    → is_component version ≡ true
    → (read_record
          (submit r now default v skill_name version publisher).0
          (review_id_of publisher skill_name version)
        ≡ (submit r now default v skill_name version publisher).1)
      × HasStatus (status_for v) (submit r now default v skill_name version publisher).1
unfolding submit
read-submit r now default v skill version publisher p s w = elim (Bool-cases v.is_valid) [
  | inl e ↦
      rw e (read-store r now skill version publisher p s w pending "automated validation passed")
  | inr e ↦ rw e (
      read-store r now skill version publisher p s w rejected
        (or_text (join_messages v.messages) default))
]

-- A decided record can be decided no more.
decide_again :
    (r : ReviewSystem) (now : String) (status : ReviewStatus) (comments : String)
    (current : ReviewRecord)
    → is_pending current.status ≡ false
    → decide r now status comments (ok current) ≡ (r, failed only_pending)
unfolding decide
decide_again r now status comments current h = rw h refl

approve_again :
    (r : ReviewSystem) (now id who comments : String) (current : ReviewRecord)
    → read_record r id ≡ ok current
    → is_pending current.status ≡ false
    → approve r now id who comments ≡ (r, failed only_pending)
unfolding approve
approve_again r now id who comments current found h =
    rw found (decide_again r now approved _ current h)

reject_again :
    (r : ReviewSystem) (now id who reason : String) (current : ReviewRecord)
    → read_record r id ≡ ok current
    → is_pending current.status ≡ false
    → reject r now id who reason ≡ (r, failed only_pending)
unfolding reject
reject_again r now id who reason current found h =
    rw found (decide_again r now rejected _ current h)

-- The record of a pending review that is decided, whichever way.
decide_pending :
    (r : ReviewSystem) (now : String) (status : ReviewStatus) (comments id : String)
    (current : ReviewRecord)
    → validate_review_id id ≡ some id
    → current.review_id ≡ id
    → is_pending current.status ≡ true
    → read_record (decide r now status comments (ok current)).0 id
      ≡ ok (record current { status = status; comments = comments; reviewed_at = now })
unfolding decide
decide_pending r now status comments id current valid same h = rw h (
    read-write r (record current { status = status; comments = comments; reviewed_at = now }) id
      valid same)

module _ (r : ReviewSystem) (id : String) (current : ReviewRecord)
    (valid : validate_review_id id ≡ some id) (found : read_record r id ≡ ok current)
    (same : current.review_id ≡ id) (waits : is_pending current.status ≡ true)
    (now later who reviewer comments reason : String) where
  read-decide :
      (status : ReviewStatus) (comments' : String)
      → read_record (decide r now status comments' (read_record r id)).0 id
        ≡ ok (record current { status = status; comments = comments'; reviewed_at = now })
  read-decide status comments' =
      rw found (decide_pending r now status comments' id current valid same waits)

  -- A pending review that is approved is read back as approved, and from then on neither `approve`
  -- nor `reject` does anything to the directory: both raise.
  pub approve_once :
      (read_record (approve r now id who comments).0 id
        ≡ ok (record current {
          status = approved;
          comments = concat (strip (or_text comments "approved") ∷ " by " ∷ who ∷ []);
          reviewed_at = now;
        }))
      × ((approve (approve r now id who comments).0 later id reviewer reason
            ≡ ((approve r now id who comments).0, failed only_pending))
          × (reject (approve r now id who comments).0 later id reviewer reason
              ≡ ((approve r now id who comments).0, failed only_pending)))
  unfolding approve reject
  approve_once =
      let done =
        read-decide approved (concat (strip (or_text comments "approved") ∷ " by " ∷ who ∷ [])) in
      let after = (approve r now id who comments).0 in
      (
        done,
        (
          approve_again after later id reviewer reason _ done refl,
          reject_again after later id reviewer reason _ done refl,
        ),
      )

  -- A pending review that is rejected is read back as rejected, and from then on neither `approve`
  -- nor `reject` does anything to the directory: both raise.
  pub reject_once :
      (read_record (reject r now id who reason).0 id
        ≡ ok (record current {
          status = rejected;
          comments = concat (strip reason ∷ " by " ∷ who ∷ []);
          reviewed_at = now;
        }))
      × ((approve (reject r now id who reason).0 later id reviewer comments
            ≡ ((reject r now id who reason).0, failed only_pending))
          × (reject (reject r now id who reason).0 later id reviewer comments
              ≡ ((reject r now id who reason).0, failed only_pending)))
  unfolding approve reject
  reject_once =
      let done = read-decide rejected (concat (strip reason ∷ " by " ∷ who ∷ [])) in
      let after = (reject r now id who reason).0 in
      (
        done,
        (
          approve_again after later id reviewer comments _ done refl,
          reject_again after later id reviewer comments _ done refl,
        ),
      )
