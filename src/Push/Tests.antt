-- ===== src/Push/Tests.antt =====
-- Two subscriptions of one user, for internal/push and internal/webpush.
use signa.Delivery.{Attempt}
use signa.Prelude.{
  ℕ, String, ◌≡◌, refl, true, false, ◌&&◌, none, some, List, [], ◌∷◌, ◌==◌, if◌then◌else◌, length,
  All, zero, suc,
}
use signa.Prelude.Int.{pos, ◌+ℤ◌, ltb_ℤ}
use signa.Prelude.Result.{ok, err}
use signa.Prelude.Text.{decimal_text, codes, equal_codes, digits, contains_codes, trim_space}
use signa.Prelude.Time.{Duration}
use signa.Push.{
  result_permanent, Tables, claim_lost, SubscriptionInput, result_succeeded, Subscription,
  ResultRow, subscription_conflict,
}
use signa.Push.Adapter.{Turn, World, deliver_result, deliver_each, judge_status, deliver}
use signa.Push.Calls.{run, claims, Call, completes}
use signa.Push.Claims.{claim-claim, claim_row-complete_row}
use signa.Push.Delivered.{IsDone}
use signa.Push.Delivered.Reports.{AnySucceeded, deliver-Promise}
use signa.Push.Owners.{HasUnique}
use signa.Push.Owners.Conflicts.{upsert-IsOwned, IsOwned}
use signa.Push.Owners.Runs.{run-HasUnique}
use signa.Push.Results.{
  put, completed_row, load_delivery_results, pending_row, claim_delivery_result,
  complete_delivery_result, ensure_delivery_results, complete_row, insert_result, insert_results,
  put_row, complete_expired_delivery_result, lease_of, claim_row,
}
use signa.Push.Settled.{IsSound, Keeps}
use signa.Push.Settled.Runs.{run-Keeps}
use signa.Push.Subscriptions.{
  delete_rows, has_row, insert_by_id, list_for_delivery, find_endpoint, upsert, user_rows,
  upsert_found,
}
use signa.Push.Validation.{
  Parsers, validate_subscription, is_prohibited_literal_ip, validate_trimmed,
}

abbrev address : String → List ℕ
address s = codes s

abbrev subscription : ℕ → ℕ → String → Subscription
subscription id user endpoint = record {
  id = id;
  user_id = user;
  endpoint = address endpoint;
  p256dh = [];
  auth = [];
  created_at = pos 1;
  updated_at = pos 1;
}

abbrev two_browsers : Tables
two_browsers = record {
  subscriptions = subscription 11 5 "https://a" ∷ subscription 12 5 "https://b" ∷ [];
  results = λ d s. none;
}

two_browsers-IsSound : IsSound two_browsers
two_browsers-IsSound d s row e = absurd (cc)

abbrev some_turn : ℕ → ℕ → Turn
some_turn token status = record {
  before = [];
  during = [];
  claim_works = true;
  token = token;
  claimed_at = pos 100;
  answer = ok (record { status_code = status; response = "sent" });
  complete_works = true;
  completed_at = pos 200;
}

abbrev good_day : World
good_day = record {
  parse_uuid = λ s. ok 7;
  message_of = λ e. "failed";
  list_works = true;
  listed = [];
  ensure_works = true;
  ensured_at = pos 50;
  ensured = [];
  load_works = true;
  turn = λ s. if s == 11 then some_turn 21 201 else some_turn 22 410;
}

abbrev attempt : Attempt
attempt = record {
  delivery_id = "7";
  alert_id = "a";
  user_id = "5";
  channel = "WEB_PUSH";
  priority = "P1";
  payload = "";
  idempotency_key = "k";
  attempt = 1;
  operation_key = "7:1";
}

abbrev lease : Duration
lease = pos 60_000_000_000

-- The tables after the delivery: the second subscription has expired and is gone.
after_delivery : Tables
after_delivery = (deliver good_day lease attempt 5 two_browsers).1

one_left : length after_delivery.subscriptions ≡ 1
unfolding after_delivery deliver list_for_delivery user_rows insert_by_id ensure_delivery_results
    insert_results insert_result has_row put load_delivery_results run deliver_each
    claim_delivery_result claim_row ◌+ℤ◌ complete_delivery_result complete_row
    complete_expired_delivery_result delete_rows judge_status decimal_text digits deliver_result
one_left = refl

delivery-reported : deliver good_day lease attempt 5 two_browsers ≡ (("sent", none), after_delivery)
unfolding after_delivery deliver list_for_delivery user_rows insert_by_id ensure_delivery_results
    insert_results insert_result has_row put load_delivery_results run deliver_each
    claim_delivery_result claim_row ◌+ℤ◌ complete_delivery_result complete_row
    complete_expired_delivery_result delete_rows judge_status decimal_text digits deliver_result
delivery-reported = refl

deliver-Promise_example :
    (d : ℕ) × (good_day.parse_uuid "7" ≡ ok d)
    × All
        (λ (s : Subscription). IsDone d after_delivery s.id)
        (user_rows 5 two_browsers.subscriptions)
    × AnySucceeded d after_delivery (user_rows 5 two_browsers.subscriptions)
deliver-Promise_example =
    deliver-Promise good_day lease 5 "sent" after_delivery attempt two_browsers two_browsers-IsSound
      delivery-reported

-- A row under a claim, and what two workers do with it.
abbrev pending : Tables
pending = record two_browsers { results = put 7 11 (pending_row (pos 50)) two_browsers.results }

claimed : Tables
claimed = (claim_delivery_result true 7 11 lease 21 (pos 100) pending).1

claim-granted : claim_delivery_result true 7 11 lease 21 (pos 100) pending ≡ (ok (some 21), claimed)
unfolding claimed claim_delivery_result claim_row put
claim-granted = refl

claim-claim_example :
    claim_delivery_result true 7 11 (pos 5) 22 (pos 60_000_000_100) claimed ≡ (ok none, claimed)
unfolding ◌+ℤ◌
claim-claim_example =
    claim-claim true 7 11 lease (pos 5) 21 22 (pos 100) (pos 60_000_000_100) pending claimed
      claim-granted refl

claim_row-complete_row_example :
    (row : ResultRow) × (claimed.results 7 11 ≡ some row)
    × (complete_delivery_result true 7 11 22 result_succeeded "late" "" (pos 300) claimed ≡ (
        if 21 == 22 && ltb_ℤ (pos 300) (pos 100 +ℤ lease_of lease)
        then (ok tt, put_row 7 11 (completed_row result_succeeded "late" "" (pos 300) row) claimed)
        else (err claim_lost, claimed)))
claim_row-complete_row_example =
    claim_row-complete_row true 7 11 lease 21 22 (pos 100) (pos 300) pending claimed
      result_succeeded "late" "" claim-granted refl refl

abbrev two_workers : List Call
two_workers =
    claims true 7 11 lease 21 (pos 100)
    ∷ completes true 7 11 21 result_succeeded "sent" "" (pos 200)
    ∷ claims true 7 11 lease 22 (pos 300)
    ∷ completes true 7 11 22 result_permanent "no" "" (pos 400)
    ∷ []

run-Keeps_example :
    IsSound (run two_workers two_browsers) × Keeps two_browsers (run two_workers two_browsers)
run-Keeps_example = run-Keeps two_workers two_browsers two_browsers-IsSound

two_browsers-HasUnique : HasUnique two_browsers
unfolding equal_codes
two_browsers-HasUnique = ((refl, tt), (tt, tt))

run-HasUnique_example : HasUnique (run two_workers two_browsers)
run-HasUnique_example = run-HasUnique two_workers two_browsers two_browsers-HasUnique

abbrev zeros : ℕ → List ℕ
zeros zero = []
zeros (suc n) = 0 ∷ zeros n

-- Parsers that take every address for an https URL, the text "p" for a public key and every other text for a key of 16 bytes.
abbrev lenient : Parsers
lenient = record {
  parse_url = λ s. some (record {
    scheme = codes "https";
    host = codes "a";
    hostname = codes "a";
    has_user = false;
    fragment = [];
  });
  parse_ip = λ s. none;
  decode_key = λ s. some (if equal_codes s (codes "p") then 4 ∷ zeros 64 else zeros 16);
}

owned :
    find_endpoint (address "https://a") two_browsers.subscriptions
    ≡ some (subscription 11 5 "https://a")
unfolding find_endpoint equal_codes
owned = refl

abbrev stranger : SubscriptionInput
stranger = record { endpoint = address "https://a"; p256dh = address "p"; auth = address "q" }

conflict : (upsert lenient true 13 6 stranger (pos 9) two_browsers).0 ≡ err subscription_conflict
unfolding upsert validate_subscription validate_trimmed is_prohibited_literal_ip contains_codes
    trim_space equal_codes find_endpoint upsert_found
conflict = refl

upsert-IsOwned_example : IsOwned 6 (subscription 11 5 "https://a") (
    find_endpoint
      (address "https://a")
      (upsert lenient true 13 6 stranger (pos 9) two_browsers).1.subscriptions)
upsert-IsOwned_example =
    upsert-IsOwned lenient true 13 6 stranger (pos 9) two_browsers (address "https://a")
      (subscription 11 5 "https://a") owned
