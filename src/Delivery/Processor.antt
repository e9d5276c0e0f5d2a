-- ===== src/Delivery/Processor.antt =====
-- `ParseRequest` of internal/delivery/delivery.go and `Process` of internal/delivery/processor.go.
use signa.Delivery.{Error, FinishResult, Config, StartResult, Attempt, Request, DeliveryError}
use signa.Delivery.Store.{finish_attempt, Deliveries, start_attempt}
use signa.Prelude.{String, Bool, true, false, not, ◌||◌, Option, none, some, if◌then◌else◌, str_eq}
use signa.Prelude.Int.{pos}
use signa.Prelude.Result.{Result, ok, err, fail_if, ◌>>=◌, ◌>>◌}
use signa.Prelude.Time.{Time, Duration}
use signa.Stream.{string_field, FieldError, Fields}

pub data RequestError : Type 0 where
  field_error : FieldError → RequestError
  unsupported_delivery_event unexpected_delivery_aggregate : String → RequestError
  undecodable_request unmatched_delivery incomplete_request : RequestError

pub record RequestBody : Type 0 where
  pub delivery_id : String
  pub alert_id : String
  pub idempotency_key : String

abbrev pub request_field : Fields → String → Result RequestError String
request_field fields name = elim (string_field fields name) [
  | ok value ↦ ok value
  | err e ↦ err (field_error e)
]

abbrev pub or_undecodable : Option RequestBody → Result RequestError RequestBody
or_undecodable none = err undecodable_request
or_undecodable (some body) = ok body

-- `decode` is `json.Unmarshal` into the body, which leaves a missing field empty.
module _ (decode : String → Option RequestBody) where
  unfoldable pub parse_request : Fields → Result RequestError Request
  unfolding string_field
  parse_request fields = do
    event_id ← request_field fields "event_id"
    event_name ← request_field fields "event_name"
    fail_if (not (str_eq event_name "delivery.requested.v1"))
        (unsupported_delivery_event event_name)
    aggregate ← request_field fields "aggregate_type"
    fail_if (not (str_eq aggregate "delivery")) (unexpected_delivery_aggregate aggregate)
    aggregate_id ← request_field fields "aggregate_id"
    payload ← request_field fields "payload"
    body ← or_undecodable (decode payload)
    fail_if (str_eq body.delivery_id "" || not (str_eq body.delivery_id aggregate_id))
        unmatched_delivery
    fail_if (str_eq body.alert_id "" || str_eq body.idempotency_key "") incomplete_request
    ok (record {
      event_id = event_id;
      delivery_id = body.delivery_id;
      alert_id = body.alert_id;
      idempotency_key = body.idempotency_key;
    })

pub record ProcessResult : Type 0 where
  pub ack : Bool
  pub retry_after : Duration

-- What the world answers to one call of `Process`: the two readings of the clock, whether the alert
-- is superseded, whether a transaction fails, and what the adapter returns for an attempt.
pub record World : Type 0 where
  pub started_at : Time
  pub finished_at : Time
  pub superseded : String → Bool
  pub start_fault : Bool
  pub finish_fault : Bool
  pub deliver : Attempt → String × Option DeliveryError

abbrev pub acked : ProcessResult
acked = record { ack = true; retry_after = pos 0 }

abbrev pub later : Duration → ProcessResult
later d = record { ack = false; retry_after = d }

abbrev pub finished_result : Result Error FinishResult → Result Error ProcessResult
finished_result (err e) = err e
finished_result (ok r) = ok (if r.terminal then acked else later r.retry_after)

-- The rest of `Process`, once an attempt has started; a `StartResult` that asks for nothing and says
-- neither `Terminal` nor `NotDue` does not occur, and the code would deliver its empty attempt.
abbrev pub deliver_attempt :
    Config → World → Option Attempt → Deliveries → Result Error ProcessResult × Deliveries
deliver_attempt config world none store = (ok (later (pos 0)), store)
deliver_attempt config world (some attempt) store =
    let (response, failure) = world.deliver attempt in
    let (finished, store') =
      finish_attempt config world.finish_fault attempt response failure world.finished_at store in
    (finished_result finished, store')

abbrev pub continue_process :
    Config → World → Result Error StartResult × Deliveries → Result Error ProcessResult × Deliveries
continue_process config world (err e, store) = (err e, store)
continue_process config world (ok r, store) =
    if r.terminal
    then (ok acked, store)
    else if r.not_due
    then (ok (later r.retry_after), store)
    else deliver_attempt config world r.attempt store

-- `Process`, of a processor whose store and adapter are set; `backoff` is its own field.
unfoldable pub process :
    (String → Option RequestBody)
    → Config
    → Duration
    → World
    → Fields
    → Deliveries
    → Result Error ProcessResult × Deliveries
unfolding parse_request start_attempt finish_attempt
process decode config backoff world fields store = elim (parse_request decode fields) [
  | err e ↦ (ok (later backoff), store)
  | ok request ↦
      continue_process config world
        (start_attempt config world.superseded world.start_fault request world.started_at store)
]
