-- ===== src/Owlhub/Review.antt =====
-- owlclaw/owlhub/review/system.py: `ReviewSystem`.
-- A file of the storage directory is what its JSON text holds; the current time and the result of
-- the validator are arguments. `resolve` is left out: a valid id holds no separator.
pub mod Appeals
pub mod Lifecycle
mod Examples
use Prim.Native.Char.{code}
use owlclaw.Base.{
  Bool, List, Option, String, [], concat, false, if◌then◌else◌, is_empty, ltb, nat_eq, none, not,
  some, string_eq, string_pair_eq, strip, true, ◌&&◌, ◌||◌, ◌∷◌,
}
use owlclaw.Base.Dict.{Dict, get, put}
use owlclaw.Owlhub.Ids.{review_id_of, validate_component, validate_review_id}

pub data ReviewStatus : Type 0 where
  pending approved rejected : ReviewStatus

pub record ReviewRecord : Type 0 where
  pub review_id : String
  pub skill_name : String
  pub version : String
  pub publisher : String
  pub status : ReviewStatus
  pub comments : String
  pub reviewed_at : String

pub record AppealRecord : Type 0 where
  pub review_id : String
  pub publisher : String
  pub reason : String
  pub appealed_at : String

pub data File : Type 0 where
  record_file : ReviewRecord → File
  appeals_file : List AppealRecord → File

pub record Notification : Type 0 where
  pub event_type : String
  pub review_id : String
  pub actor : String
  pub timestamp : String

pub record ReviewSystem : Type 0 where
  pub files : Dict String File
  pub assigned_reviewers : Dict String String
  pub notifications : List Notification

-- How a call fails: ValueErrors, FileNotFoundError, PermissionError, and the AttributeError of
-- reading a list as a record.
pub data Failure : Type 0 where
  invalid_component : String → Failure
  invalid_review_id only_pending only_rejected : Failure
  review_not_found publisher_mismatch not_a_record : Failure

pub data Result (A : Type 0) : Type 0 where
  ok : A → Result A
  failed : Failure → Result A

-- `str < str`, by code points.
unfoldable pub text_lt : String → String → Bool
text_lt s String.[] = false
text_lt String.[] (String.◌∷◌ d t) = true
text_lt (String.◌∷◌ c s) (String.◌∷◌ d t) =
    ltb (code c) (code d) || (nat_eq (code c) (code d) && text_lt s t)

abbrev pub record_name : String → String
record_name id = concat (id ∷ ".json" ∷ [])

abbrev pub appeals_name : String → String
appeals_name id = concat (id ∷ ".appeals.json" ∷ [])

unfoldable pub with_file : ReviewSystem → String → File → ReviewSystem
with_file r name content = record r { files = put r.files name content }

abbrev pub as_record : Option File → Result ReviewRecord
as_record none = failed review_not_found
as_record (some (record_file found)) = ok found
as_record (some (appeals_file appeals)) = failed not_a_record

abbrev pub read_valid : ReviewSystem → Option String → Result ReviewRecord
read_valid r none = failed invalid_review_id
read_valid r (some id) = as_record (get r.files (record_name id))

-- `_read_record`
unfoldable pub read_record : ReviewSystem → String → Result ReviewRecord
read_record r review_id = read_valid r (validate_review_id review_id)

abbrev pub write_valid :
    ReviewSystem → ReviewRecord → Option String → ReviewSystem × Result ReviewRecord
write_valid r new none = (r, failed invalid_review_id)
write_valid r new (some id) = (with_file r (record_name id) (record_file new), ok new)

-- `_write_record`, and the record as the caller's result.
unfoldable pub write_record : ReviewSystem → ReviewRecord → ReviewSystem × Result ReviewRecord
unfolding with_file
write_record r new = write_valid r new (validate_review_id new.review_id)

-- `_build_record`
unfoldable pub build_record :
    String → String → String → ReviewStatus → String → String → Result ReviewRecord
build_record skill_name version publisher status comments now =
    if not (validate_component publisher)
    then failed (invalid_component "publisher")
    else if not (validate_component skill_name)
    then failed (invalid_component "skill_name")
    else if not (validate_component version)
    then failed (invalid_component "version")
    else ok (record {
      review_id = review_id_of publisher skill_name version;
      skill_name = skill_name;
      version = version;
      publisher = publisher;
      status = status;
      comments = comments;
      reviewed_at = now;
    })

abbrev pub write_built : ReviewSystem → Result ReviewRecord → ReviewSystem × Result ReviewRecord
write_built r (ok new) = write_record r new
write_built r (failed why) = (r, failed why)

-- `_store_submission`
unfoldable pub store_submission :
    ReviewSystem
    → String
    → String
    → String
    → String
    → ReviewStatus
    → String
    → ReviewSystem × Result ReviewRecord
unfolding build_record write_record
store_submission r now skill_name version publisher status comments =
    write_built r (build_record skill_name version publisher status comments now)

-- `"; ".join(messages)`
unfoldable pub join_messages : List String → String
join_messages [] = ""
join_messages (m ∷ []) = m
join_messages (m ∷ n ∷ ms) = concat (m ∷ "; " ∷ join_messages (n ∷ ms) ∷ [])

abbrev pub or_text : String → String → String
or_text s default = if is_empty s then default else s

-- What the validator answers: whether the skill is valid, and the messages of its errors.
pub record ValidationResult : Type 0 where
  pub is_valid : Bool
  pub messages : List String

-- `submit_for_review` and `submit_manifest_for_review`, which differ in the default comment.
unfoldable pub submit :
    ReviewSystem
    → String
    → String
    → ValidationResult
    → String
    → String
    → String
    → ReviewSystem × Result ReviewRecord
unfolding store_submission join_messages
submit r now default_comment validation skill_name version publisher =
    if validation.is_valid
    then store_submission r now skill_name version publisher pending "automated validation passed"
    else store_submission r now skill_name version publisher rejected
        (or_text (join_messages validation.messages) default_comment)

abbrev pub is_pending : ReviewStatus → Bool
is_pending pending = true
is_pending _ = false

abbrev pub is_rejected : ReviewStatus → Bool
is_rejected rejected = true
is_rejected _ = false

-- `approve` and `reject` from the record they read on.
unfoldable pub decide :
    ReviewSystem
    → String
    → ReviewStatus
    → String
    → Result ReviewRecord
    → ReviewSystem × Result ReviewRecord
unfolding write_record
decide r now status comments (failed why) = (r, failed why)
decide r now status comments (ok current) =
    if not (is_pending current.status)
    then (r, failed only_pending)
    else write_record r (record current { status = status; comments = comments; reviewed_at = now })

-- `approve`
unfoldable pub approve :
    ReviewSystem → String → String → String → String → ReviewSystem × Result ReviewRecord
unfolding decide read_record
approve r now review_id reviewer comments =
    decide r now approved (concat (strip (or_text comments "approved") ∷ " by " ∷ reviewer ∷ []))
      (read_record r review_id)

-- `reject`
unfoldable pub reject :
    ReviewSystem → String → String → String → String → ReviewSystem × Result ReviewRecord
unfolding decide read_record
reject r now review_id reviewer reason =
    decide r now rejected (concat (strip reason ∷ " by " ∷ reviewer ∷ [])) (read_record r review_id)
