-- ===== src/Owlhub/Review/Examples.antt =====
-- Runs of owlclaw/owlhub/review/system.py: a skill is submitted, decided and appealed.
use owlclaw.Base.{[], false, refl, some, string_eq, string_pair_eq, strip, true, ◌∷◌, ◌≡◌}
use owlclaw.Base.Dict.{get}
use owlclaw.Owlhub.Ids.{
  all_id_chars, is_component, is_id_char, is_review_id, review_id_of, some_split,
  validate_review_id,
}
use owlclaw.Owlhub.Review.{
  ReviewRecord, ReviewStatus, ReviewSystem, ValidationResult, approved, ok, read_record,
  record_file, rejected, submit,
}
use owlclaw.Owlhub.Review.Appeals.{list_appeals}
use owlclaw.Owlhub.Review.Lifecycle.{HasStatus, read-submit, status_for}

abbrev empty_directory : ReviewSystem
empty_directory = record { files = []; assigned_reviewers = []; notifications = [] }

abbrev passed : ValidationResult
passed = record { is_valid = true; messages = [] }

abbrev record_of : ReviewStatus → ReviewRecord
record_of status = record {
  review_id = "ann-buy-1.0";
  skill_name = "buy";
  version = "1.0";
  publisher = "ann";
  status = status;
  comments = "";
  reviewed_at = "t0";
}

abbrev directory_of : ReviewStatus → ReviewSystem
directory_of status = record empty_directory {
  files = ("ann-buy-1.0.json", record_file (record_of status)) ∷ [];
}

good_publisher : is_component "ann" ≡ true
unfolding is_component all_id_chars is_id_char
good_publisher = refl

good_name : is_component "buy" ≡ true
unfolding is_component all_id_chars is_id_char
good_name = refl

good_version : is_component "1.0" ≡ true
unfolding is_component all_id_chars is_id_char
good_version = refl

bad_publisher : is_component "a/b" ≡ false
unfolding is_component all_id_chars is_id_char
bad_publisher = refl

good_id : validate_review_id "ann-buy-1.0" ≡ some "ann-buy-1.0"
unfolding validate_review_id is_review_id is_component some_split all_id_chars is_id_char strip
good_id = refl

found :
    (status : ReviewStatus)
    → read_record (directory_of status) "ann-buy-1.0" ≡ ok (record_of status)
unfolding read_record get
found status = rw good_id refl

none_recorded : list_appeals (directory_of rejected) "ann-buy-1.0" ≡ ok []
unfolding list_appeals get
none_recorded = rw good_id refl

read-submit_example :
    (read_record
        (submit (directory_of approved) "t1" "invalid" passed "buy" "1.0" "ann").0
        (review_id_of "ann" "buy" "1.0")
      ≡ (submit (directory_of approved) "t1" "invalid" passed "buy" "1.0" "ann").1)
    × HasStatus
        (status_for passed)
        (submit (directory_of approved) "t1" "invalid" passed "buy" "1.0" "ann").1
read-submit_example =
    read-submit (directory_of approved) "t1" "invalid" passed "buy" "1.0" "ann" good_publisher
      good_name good_version
