-- ===== src/Approvals/Tests.antt =====
-- Reviews of a concrete request.
use featuresignals_unified.Base.{◌≡◌, refl, true, false, Option, none, some, []}
use featuresignals_unified.Base.Int.{pos}
use featuresignals_unified.Base.Text.{Text, bytes, text_eq}
use featuresignals_unified.Domain.{FlagState}
use featuresignals_unified.Approvals.{
  Tables, ReviewFaults, create, applied, refuse, reviewed, new_request,
}
use featuresignals_unified.Approvals.Review.{review}
use featuresignals_unified.Approvals.Reviewing.{IsReview, review-IsReview, review-decided}

abbrev switched_on : FlagState
switched_on = record {
  id = [];
  flag_id = [];
  env_id = [];
  enabled = true;
  default_value = none;
  rules = [];
  percentage_rollout = pos 0;
  variants = [];
  scheduled_enable_at = none;
  scheduled_disable_at = none;
}

-- Every payload parses to the same state.
abbrev toy_parse : Text → Option FlagState
toy_parse payload = some switched_on

abbrev fine : ReviewFaults
fine = record {
  get_fails = false;
  update_fails = false;
  upsert_fails = false;
  mark_fails = false;
  audit_fails = false;
}

abbrev asked : Tables
asked =
    (create false (bytes "r1") (bytes "acme") (bytes "ann")
      (some (record {
        flag_id = bytes "f";
        env_id = bytes "prod";
        change_type = bytes "toggle";
        payload = bytes "{}";
      }))
      (record { requests = λ id. none; states = λ f e. none; audit = [] })).1

abbrev approve : Option (Text × Text)
approve = some (bytes "approve", bytes "ok")

-- Ann may not review her own request, Bob may, and Eve of another organization does not find it.
reviews :
    ((review toy_parse
        (bytes "s1")
        fine
        (bytes "acme")
        (bytes "ann")
        5
        (bytes "r1")
        approve
        asked).0
      ≡ refuse 403)
    × ((review toy_parse
          (bytes "s1")
          fine
          (bytes "evil")
          (bytes "eve")
          5
          (bytes "r1")
          approve
          asked).0
        ≡ refuse 404)
    × ((review toy_parse
          (bytes "s1")
          fine
          (bytes "acme")
          (bytes "bob")
          5
          (bytes "r1")
          approve
          asked).0.code
        ≡ 200)
unfolding review create text_eq
reviews = (refl, refl, refl)

review-IsReview_example :
    IsReview toy_parse
      (bytes "s1")
      (bytes "acme")
      (bytes "bob")
      5
      approve
      (asked.requests (bytes "r1"))
      asked
      (review toy_parse (bytes "s1") fine (bytes "acme") (bytes "bob") 5 (bytes "r1") approve asked)
review-IsReview_example =
    review-IsReview toy_parse (bytes "s1") fine (bytes "acme") (bytes "bob") 5 (bytes "r1") approve
      asked

abbrev decided : Tables
decided =
    (review toy_parse (bytes "s1") fine (bytes "acme") (bytes "bob") 5 (bytes "r1") approve asked).1

review-decided_test :
    (review toy_parse
      (bytes "s2")
      fine
      (bytes "acme")
      (bytes "cid")
      9
      (bytes "r1")
      approve
      decided).1
    ≡ decided
unfolding review create text_eq
review-decided_test =
    review-decided toy_parse (bytes "s2") fine (bytes "acme") (bytes "cid") 9 (bytes "r1") approve
      decided
      (reviewed applied (bytes "bob") (bytes "ok") 5 (
        new_request (bytes "r1") (bytes "acme") (bytes "ann") (record {
          flag_id = bytes "f";
          env_id = bytes "prod";
          change_type = bytes "toggle";
          payload = bytes "{}";
        })))
      refl (λ e. cc e)
