-- ===== src/Owlhub/Review/Appeals.antt =====
-- owlclaw/owlhub/review/system.py: the lists of the `ReviewSystem`, its reviewers and its appeals.
pub mod Recorded
-- A file of the directory with its name, in the order of the names.
use owlclaw.Base.{
  Bool, List, Option, String, [], if◌then◌else◌, keep_if, none, not, some, string_eq,
  string_pair_eq, strip, ◌&&◌, ◌++◌, ◌==◌, ◌||◌, ◌∷◌,
}
use owlclaw.Base.Dict.{Dict, get, put}
use owlclaw.Base.Sort.{sort_by}
use owlclaw.Owlhub.Ids.{validate_review_id}
use owlclaw.Owlhub.Review.{
  AppealRecord, File, Result, ReviewRecord, ReviewSystem, appeals_file, appeals_name, failed,
  invalid_review_id, is_pending, is_rejected, ok, only_rejected, publisher_mismatch, read_record,
  record_file, text_lt, with_file,
}

abbrev name_later : String × File → String × File → Bool
name_later a b = text_lt b.0 a.0

unfoldable pub ends_with : String → String → Bool
ends_with suffix String.[] = suffix == ""
ends_with suffix (String.◌∷◌ c s) = (String.◌∷◌ c s) == suffix || ends_with suffix s

-- The loop of `list_records`.
unfoldable pub collect_records : Dict String File → List ReviewRecord
unfolding ends_with
collect_records [] = []
collect_records ((name, record_file found) ∷ d) =
    let rest = collect_records d in
    if ends_with ".json" name && not (ends_with ".appeals.json" name) then found ∷ rest else rest
collect_records ((name, appeals_file appeals) ∷ d) = collect_records d

abbrev pub reviewed_earlier : ReviewRecord → ReviewRecord → Bool
reviewed_earlier a b = text_lt a.reviewed_at b.reviewed_at

-- `list_records`
unfoldable pub list_records : ReviewSystem → List ReviewRecord
unfolding collect_records
list_records r = sort_by reviewed_earlier (collect_records (sort_by name_later r.files))

-- `list_pending_records`
unfoldable pub list_pending_records : ReviewSystem → List ReviewRecord
unfolding list_records
list_pending_records r = keep_if (λ x. is_pending x.status) (list_records r)

-- `_notify`
unfoldable pub notify : ReviewSystem → String → String → String → String → ReviewSystem
notify r now event_type review_id actor = record r {
  notifications =
      r.notifications
      ++ record { event_type = event_type; review_id = review_id; actor = actor; timestamp = now }
        ∷ [];
}

-- `assign_reviewer`
unfoldable pub assign_reviewer :
    ReviewSystem → String → String → String → ReviewSystem × Result Unit
unfolding notify
assign_reviewer r now review_id reviewer = elim (read_record r review_id) [
  | failed why ↦ (r, failed why)
  | ok found ↦ (
    notify (record r { assigned_reviewers = put r.assigned_reviewers review_id reviewer }) now
        "review_assigned" review_id reviewer,
    ok tt,
  )
]

-- `get_assigned_reviewer`
unfoldable pub get_assigned_reviewer : ReviewSystem → String → Option String
get_assigned_reviewer r review_id = get r.assigned_reviewers review_id

abbrev pub appealed_later : AppealRecord → AppealRecord → Bool
appealed_later a b = text_lt b.appealed_at a.appealed_at

abbrev pub as_appeals : Option File → List AppealRecord
as_appeals (some (appeals_file appeals)) = sort_by appealed_later appeals
as_appeals _ = []

abbrev pub appeals_of_id : ReviewSystem → Option String → Result (List AppealRecord)
appeals_of_id r none = failed invalid_review_id
appeals_of_id r (some id) = ok (as_appeals (get r.files (appeals_name id)))

-- `list_appeals`
unfoldable pub list_appeals : ReviewSystem → String → Result (List AppealRecord)
list_appeals r review_id = appeals_of_id r (validate_review_id review_id)

abbrev pub write_appeals_to :
    ReviewSystem
    → String
    → String
    → AppealRecord
    → List AppealRecord
    → Option String
    → ReviewSystem × Result AppealRecord
write_appeals_to r now review_id new appeals none = (r, failed invalid_review_id)
write_appeals_to r now review_id new appeals (some id) = (
  notify (with_file r (appeals_name id) (appeals_file (appeals ++ new ∷ []))) now "review_appealed"
      review_id new.publisher,
  ok new,
)

-- `_write_appeals`, and what follows it in `appeal`.
unfoldable pub write_appeals :
    ReviewSystem
    → String
    → String
    → AppealRecord
    → Result (List AppealRecord)
    → ReviewSystem × Result AppealRecord
unfolding notify
write_appeals r now review_id new (failed why) = (r, failed why)
write_appeals r now review_id new (ok appeals) =
    write_appeals_to r now review_id new appeals (validate_review_id review_id)

-- The checks of `appeal` on the record that was read.
unfoldable pub check_appeal : String → Result ReviewRecord → Result Unit
check_appeal publisher (failed why) = failed why
check_appeal publisher (ok current) =
    if not (is_rejected current.status)
    then failed only_rejected
    else if not (current.publisher == publisher)
    then failed publisher_mismatch
    else ok tt

abbrev pub appeal_after :
    ReviewSystem
    → String
    → String
    → String
    → String
    → Result Unit
    → ReviewSystem × Result AppealRecord
appeal_after r now review_id publisher reason (failed why) = (r, failed why)
appeal_after r now review_id publisher reason (ok _) =
    write_appeals r now review_id
      (record {
        review_id = review_id;
        publisher = publisher;
        reason = strip reason;
        appealed_at = now;
      })
      (list_appeals r review_id)

-- `appeal`
unfoldable pub appeal :
    ReviewSystem → String → String → String → String → ReviewSystem × Result AppealRecord
unfolding write_appeals check_appeal list_appeals
appeal r now review_id publisher reason =
    appeal_after r now review_id publisher reason (check_appeal publisher (read_record r review_id))
