-- ===== src/Owlhub/Review/Appeals/Recorded.antt =====
-- What an appeal of owlclaw/owlhub/review/system.py leaves behind.
use owlclaw.Base.{List, String, [], eq_refl, refl, some, strip, ◌++◌, ◌∷◌, ◌≡◌}
use owlclaw.Base.Dict.{get-put_self}
use owlclaw.Base.Sort.{sort_by}
use owlclaw.Owlhub.Ids.{validate_review_id}
use owlclaw.Owlhub.Review.{
  AppealRecord, ReviewRecord, ReviewSystem, ok, read_record, rejected, with_file,
}
use owlclaw.Owlhub.Review.Appeals.{
  appeal, appealed_later, check_appeal, list_appeals, notify, write_appeals,
}

-- An appeal of the review's own publisher against a rejected review is added to the appeals that
-- were recorded before, which are then listed by the time they were made.
pub list_appeals-appeal :
    (r : ReviewSystem) (now id publisher reason : String) (current : ReviewRecord)
    (appeals : List AppealRecord)
    → validate_review_id id ≡ some id
    → read_record r id ≡ ok current
    → current.status ≡ rejected
    → current.publisher ≡ publisher
    → list_appeals r id ≡ ok appeals
    → list_appeals (appeal r now id publisher reason).0 id
      ≡ ok (
          sort_by appealed_later (
            appeals
            ++ record {
              review_id = id;
              publisher = publisher;
              reason = strip reason;
              appealed_at = now;
            }
              ∷ []))
unfolding appeal check_appeal write_appeals list_appeals notify with_file
list_appeals-appeal r now id publisher reason current appeals valid found turned same before =
    rw (found, turned, same, eq_refl, before, valid, get-put_self) refl
