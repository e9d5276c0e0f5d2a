-- ===== src/Push/Adapter.antt =====
-- internal/webpush/adapter.go: the adapter that delivers an attempt to the subscriptions of its user.
-- Other workers may use the store between the steps. Sending, the parsing of ids and the texts of the
-- store's errors are parameters; `Config.Validate` and the HTTP client are not modelled.
use signa.Delivery.{Attempt, DeliveryError, FailureKind, transient, permanent}
use signa.Prelude.{
  ℕ, suc, String, Bool, not, ◌&&◌, ◌||◌, Option, none, some, List, [], ◌∷◌, ltb, leb, ◌==◌,
  if◌then◌else◌, str_eq, length,
}
use signa.Prelude.Int.{pos, ◌+ℤ◌, ◌-ℤ◌, ltb_ℤ, leb_ℤ}
use signa.Prelude.Result.{Result, ok, err}
use signa.Prelude.Text.{decimal_text, concat}
use signa.Prelude.Time.{Time, Duration, max_duration}
use signa.Push.{
  Error, Outcome, Subscription, result_succeeded, result_retryable, result_pending, ResultRow,
  result_permanent, Tables, result_expired, DeliveryResultState,
}
use signa.Push.Calls.{run, Call}
use signa.Push.Results.{
  ensure_delivery_results, claim_delivery_result, complete_delivery_result, load_delivery_results,
  complete_expired_delivery_result,
}
use signa.Push.Subscriptions.{list_for_delivery}

pub record SendResult : Type 0 where
  pub status_code : ℕ
  pub response : String

-- What the world does in the turn of one subscription: the calls of other workers before it and
-- while the message is sent, the claim and the completion in the database, and the sender's answer.
pub record Turn : Type 0 where
  pub before : List Call
  pub during : List Call
  pub claim_works : Bool
  pub token : ℕ
  pub claimed_at : Time
  pub answer : Result String SendResult
  pub complete_works : Bool
  pub completed_at : Time

pub record World : Type 0 where
  pub parse_uuid : String → Result String ℕ
  pub message_of : Error → String
  pub list_works : Bool
  pub listed : List Call
  pub ensure_works : Bool
  pub ensured_at : Time
  pub ensured : List Call
  pub load_works : Bool
  pub turn : ℕ → Turn

-- The variables of the loop of `Deliver`.
pub record Progress : Type 0 where
  pub succeeded : ℕ
  pub terminal : ℕ
  pub last_response : String
  pub transient_err : Option String
  pub permanent_err : Option String

abbrev pub no_progress : Progress
no_progress = record {
  succeeded = 0;
  terminal = 0;
  last_response = "";
  transient_err = none;
  permanent_err = none;
}

abbrev pub or_empty : Option String → String
or_empty none = ""
or_empty (some s) = s

-- `strings.ToLower(string(stored.State))`.
abbrev pub state_text : DeliveryResultState → String
state_text result_pending = "pending"
state_text result_succeeded = "succeeded"
state_text result_expired = "expired"
state_text result_permanent = "permanent"
state_text result_retryable = "retryable"

abbrev pub note_transient : String → Progress → Progress
note_transient message p = record p { transient_err = some message }

abbrev pub note_success : Progress → Progress
note_success p = record p { succeeded = suc p.succeeded; terminal = suc p.terminal }

abbrev pub note_permanent : String → Progress → Progress
note_permanent message p = record p { terminal = suc p.terminal; permanent_err = some message }

-- A stored result that is terminal is not sent again.
abbrev pub note_stored : DeliveryResultState → Option String → Progress → Option Progress
note_stored result_succeeded response p =
    some (note_success (record p { last_response = or_empty response }))
note_stored result_expired response p = some (
    note_permanent "web push subscription result is expired"
      (record p { last_response = or_empty response }))
note_stored result_permanent response p = some (
    note_permanent "web push subscription result is permanent"
      (record p { last_response = or_empty response }))
note_stored _ response p = none

abbrev pub stored_progress : Option ResultRow → Progress → Option Progress
stored_progress none p = none
stored_progress (some row) p = note_stored row.state row.provider_response p

-- What a status of the provider means.
pub data Verdict : Type 0 where
  accepted gone rejected unclear : Verdict

unfoldable pub judge_status : ℕ → Verdict
judge_status status =
    if leb 200 status && ltb status 300
    then accepted
    else if status == 404 || status == 410
    then gone
    else if leb 400 status && ltb status 500 && not (status == 408) && not (status == 429)
    then rejected
    else unclear

abbrev pub with_status : String → ℕ → String
with_status text status = concat text (decimal_text status)

-- The progress after the completion in the store, which may fail.
abbrev pub recorded : Outcome (Unit {0}) → (Error → Progress) → Progress → Progress × Tables
recorded (err e, t) failed finished = (failed e, t)
recorded (ok _, t) failed finished = (finished, t)

module _ (world : World) (d user : ℕ) where
  abbrev pub failed_record : String → Progress → Error → Progress
  failed_record text p e = note_transient (concat text (world.message_of e)) p

  abbrev pub record_verdict :
      Verdict → ℕ → Turn → ℕ → SendResult → Progress → Tables → Progress × Tables
  record_verdict accepted s turn token r p t =
      recorded
        (complete_delivery_result turn.complete_works d s token result_succeeded r.response ""
          turn.completed_at t)
        (failed_record "record web push success: " p) (note_success p)
  record_verdict gone s turn token r p t =
      let message = with_status "web push subscription expired: status " r.status_code in
      recorded
        (complete_expired_delivery_result turn.complete_works d user s token r.response message
          turn.completed_at t)
        (failed_record "record expired web push subscription: " p) (note_permanent message p)
  record_verdict rejected s turn token r p t =
      let message = with_status "web push provider rejected subscription: status " r.status_code in
      recorded
        (complete_delivery_result turn.complete_works d s token result_permanent r.response message
          turn.completed_at t)
        (failed_record "record web push permanent result: " p) (note_permanent message p)
  record_verdict unclear s turn token r p t =
      let message = with_status "web push provider returned status " r.status_code in
      recorded
        (complete_delivery_result turn.complete_works d s token result_retryable r.response message
          turn.completed_at t)
        (failed_record "record web push retryable result: " p) (note_transient message p)

  abbrev pub after_send :
      Result String SendResult → ℕ → Turn → ℕ → Progress → Tables → Progress × Tables
  after_send (err message) s turn token p t =
      recorded
        (complete_delivery_result turn.complete_works d s token result_retryable "" message
          turn.completed_at t)
        (failed_record "record web push retryable result: " p)
        (note_transient (concat "send web push notification: " message) p)
  after_send (ok r) s turn token p t =
      record_verdict (judge_status r.status_code) s turn token r
        (record p { last_response = r.response }) t

  abbrev pub after_claim : Outcome (Option ℕ) → ℕ → Turn → Progress → Progress × Tables
  after_claim (err e, t) s turn p =
      (note_transient (concat "claim web push delivery result: " (world.message_of e)) p, t)
  after_claim (ok none, t) s turn p =
      (note_transient "web push delivery recipient is already being processed" p, t)
  after_claim (ok (some token), t) s turn p =
      after_send turn.answer s turn token p (run turn.during t)

  -- The turn of a subscription whose stored result is, or is not, terminal.
  abbrev pub take_turn :
      Option Progress → Duration → ℕ → Turn → Progress → Tables → Progress × Tables
  take_turn (some stored) lease s turn p t = (stored, t)
  take_turn none lease s turn p t =
      after_claim (claim_delivery_result turn.claim_works d s lease turn.token turn.claimed_at t) s
        turn p

  -- The loop over the subscriptions, with the results that were loaded before it.
  unfoldable pub deliver_each :
      Duration → (ℕ → Option ResultRow) → List Subscription → Progress → Tables → Progress × Tables
  unfolding claim_delivery_result complete_delivery_result complete_expired_delivery_result run
      judge_status decimal_text
  deliver_each lease loaded [] p t = (p, t)
  deliver_each lease loaded (s ∷ subscriptions) p t =
      let turn = world.turn s.id in
      let (p', t') =
        take_turn (stored_progress (loaded s.id) p) lease s.id turn p (run turn.before t) in
      deliver_each lease loaded subscriptions p' t'

abbrev pub failure : FailureKind → String → String × Option DeliveryError
failure kind message = ("", some (record { kind = kind; message = message }))

-- What `Deliver` returns after the loop over that many subscriptions.
unfoldable pub deliver_result : ℕ → Progress → String × Option DeliveryError
deliver_result count p = elim p.transient_err [
  | some message ↦ (p.last_response, some (record { kind = transient; message = message }))
  | none ↦ if ltb 0 p.succeeded then (p.last_response, none) else elim p.permanent_err [
    | some message ↦
        if p.terminal == count
        then (p.last_response, some (record { kind = permanent; message = message }))
        else (
          p.last_response,
          some (record {
            kind = transient;
            message = "web push delivery has unresolved recipients";
          }),
        )
    | none ↦ (
      p.last_response,
      some (record { kind = transient; message = "web push delivery has unresolved recipients" }),
    )
  ]
]

module _ (world : World) where
  abbrev pub deliver_loaded :
      Duration
      → ℕ
      → ℕ
      → List Subscription
      → Result Error (ℕ → Option ResultRow)
      → Tables
      → (String × Option DeliveryError) × Tables
  deliver_loaded lease d user subscriptions (err e) t =
      (failure transient (concat "load web push delivery results: " (world.message_of e)), t)
  deliver_loaded lease d user subscriptions (ok loaded) t =
      let (p, t') = deliver_each world d user lease loaded subscriptions no_progress t in
      (deliver_result (length subscriptions) p, t')

  abbrev pub deliver_ensured :
      Duration
      → ℕ
      → ℕ
      → List Subscription
      → Outcome (Unit {0})
      → (String × Option DeliveryError) × Tables
  deliver_ensured lease d user subscriptions (err e, t) =
      (failure transient (concat "initialize web push delivery results: " (world.message_of e)), t)
  deliver_ensured lease d user subscriptions (ok _, t) =
      let t' = run world.ensured t in
      deliver_loaded lease d user subscriptions (load_delivery_results world.load_works d t') t'

  abbrev pub deliver_listed :
      Duration
      → ℕ
      → ℕ
      → Result Error (List Subscription)
      → Tables
      → (String × Option DeliveryError) × Tables
  deliver_listed lease d user (err e) t =
      (failure transient (concat "list web push subscriptions: " (world.message_of e)), t)
  deliver_listed lease d user (ok []) t =
      (failure permanent "user has no active push subscriptions", t)
  deliver_listed lease d user (ok (s ∷ subscriptions)) t =
      deliver_ensured lease d user (s ∷ subscriptions) (
        ensure_delivery_results world.ensure_works d user (s ∷ subscriptions) world.ensured_at
          (run world.listed t))

  abbrev pub deliver_to :
      Duration → Result String ℕ → ℕ → Tables → (String × Option DeliveryError) × Tables
  deliver_to lease (err message) user t =
      (failure permanent (concat "web push delivery ID is invalid: " message), t)
  deliver_to lease (ok d) user t =
      deliver_listed lease d user (list_for_delivery world.list_works user t) t

  -- `Adapter.Deliver` of an adapter whose store and sender are set; `user` is the user's id.
  unfoldable pub deliver :
      Duration → Attempt → ℕ → Tables → (String × Option DeliveryError) × Tables
  unfolding list_for_delivery ensure_delivery_results run load_delivery_results deliver_each
      deliver_result
  deliver lease attempt user t =
      if not (str_eq attempt.channel "WEB_PUSH")
      then (failure permanent "delivery channel is not WEB_PUSH", t)
      else if user == 0
      then (failure permanent "web push delivery user is required", t)
      else deliver_to lease (world.parse_uuid attempt.delivery_id) user t

-- `recipientClaimLeaseFor`.
unfoldable pub recipient_claim_lease_for : Duration → Duration
unfolding ◌-ℤ◌ ◌+ℤ◌
recipient_claim_lease_for timeout =
    if leb_ℤ timeout (pos 0)
    then pos 300_000_000_000
    else if ltb_ℤ (max_duration -ℤ pos 60_000_000_000) timeout
    then max_duration
    else timeout +ℤ pos 60_000_000_000
