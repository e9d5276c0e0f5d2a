-- ===== src/Delivery.antt =====
-- internal/delivery/delivery.go and store.go: the delivery of one alert to one user, and its record in
-- PostgreSQL. A statement of a transaction that fails rolls everything back and is reported as an error
-- (`Store.fault`), so the definitions here are the transactions whose statements all succeed.
pub mod Attempts
pub mod Start
pub mod Finish
pub mod Invariant
pub mod Runs
pub mod Terminal
pub mod Leases
pub mod Retries
pub mod Store
pub mod Processor
pub mod Acks
pub mod Consumer
pub mod Batches
pub mod Tests
use Prim.Native.String.{len, slice}
use signa.Prelude.{ℕ, String, Bool, true, false, not, ◌||◌, Option, List, ltb, if◌then◌else◌}
use signa.Prelude.Int.{pos, ltb_ℤ, leb_ℤ}
use signa.Prelude.Text.{concat}
use signa.Prelude.Time.{Time, Duration}

-- The values of `State`.
pub data State : Type 0 where
  pending in_flight succeeded quarantined skipped : State

pub data FailureKind : Type 0 where
  transient permanent : FailureKind

-- `DeliveryError`: the error's text, with its kind.
pub record DeliveryError : Type 0 where
  pub kind : FailureKind
  pub message : String

pub record Request : Type 0 where
  pub event_id : String
  pub delivery_id : String
  pub alert_id : String
  pub idempotency_key : String

pub record Attempt : Type 0 where
  pub delivery_id : String
  pub alert_id : String
  pub user_id : String
  pub channel : String
  pub priority : String
  pub payload : String
  pub idempotency_key : String
  pub attempt : ℕ
  pub operation_key : String

pub record StartResult : Type 0 where
  pub attempt : Option Attempt
  pub terminal : Bool
  pub not_due : Bool
  pub retry_after : Duration

pub record FinishResult : Type 0 where
  pub state : State
  pub terminal : Bool
  pub stale : Bool
  pub retry_after : Duration

pub record Config : Type 0 where
  pub max_attempts : ℕ
  pub backoff : Duration
  pub lease : Duration

-- A row of `deliveries`.
pub record Row : Type 0 where
  pub state : State
  pub alert_id : String
  pub user_id : String
  pub idempotency_key : String
  pub channel : String
  pub priority : String
  pub payload : String
  pub attempts : ℕ
  pub active_attempt_no : Option ℕ
  pub last_attempt_at : Option Time
  pub next_attempt_at : Option Time
  pub delivered_at : Option Time
  pub last_error : Option String
  pub provider_response : Option String
  pub updated_at : Time

pub data AttemptState : Type 0 where
  started attempt_succeeded failed attempt_quarantined attempt_skipped stale : AttemptState

-- A row of `delivery_attempts`.
pub record AttemptRow : Type 0 where
  pub attempt_no : ℕ
  pub operation_key : String
  pub state : AttemptState
  pub failure_kind : Option FailureKind
  pub error_message : Option String
  pub provider_response : Option String
  pub started_at : Time
  pub completed_at : Option Time

-- All that the database holds of one delivery: its row, its attempts with the newest first, and the
-- reason of its row in `delivery_quarantine`.
pub record Slot : Type 0 where
  pub row : Row
  pub attempts : List AttemptRow
  pub quarantine : Option String

pub data Error : Type 0 where
  not_found identity_conflict duplicate_attempt database : Error

-- `PostgresConfig.validate`; a Go `int` below 1 is 0 here.
unfoldable pub is_valid_config : Config → Bool
is_valid_config c = not (ltb c.max_attempts 1 || ltb_ℤ c.backoff (pos 0) || leb_ℤ c.lease (pos 0))

abbrev pub operation_key : String → String
operation_key key = concat "signa:delivery:" key

-- `truncate`: the first 1000 bytes.
abbrev pub truncate : String → String
truncate value = if ltb 1000 (len value) then slice value 0 1000 else value

abbrev pub is_terminal : State → Bool
is_terminal succeeded = true
is_terminal quarantined = true
is_terminal skipped = true
is_terminal _ = false

abbrev pub is_in_flight : State → Bool
is_in_flight in_flight = true
is_in_flight _ = false
