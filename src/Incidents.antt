-- ===== src/Incidents.antt =====
-- internal/incidents: the processors that turn events of the stream into transactions on incidents.
-- A transaction that fails leaves nothing behind; decoding JSON and parsing UUIDs are parameters.
pub mod LifecycleProcessor
pub mod Sweeping
pub mod Repeating
pub mod Attaching
pub mod Assessing
pub mod Applying
pub mod Ending
pub mod Processor
pub mod Redelivery
pub mod Rechecking
pub mod Tests
-- The fields of an incident that the lifecycle processor reads and writes.
use signa.Lifecycle
use signa.Prelude.{String, Option, none, some, List, if◌then◌else◌, str_eq}
use signa.Prelude.Int.{ℤ}
use signa.Prelude.Result.{Result, ok, err}
use signa.Prelude.Time.{Time}
use signa.Stream.{Fields, FieldValue, text, bytes, number, lookup_field}

pub record Row : Type 0 where
  pub status : String
  pub last_signal_at : Option Time
  pub started_at : Option Time
  pub created_at : Time
  pub expires_at : Option Time
  pub resolved_at : Option Time
  pub updated_at : Time

-- A row of `incident_state_history` and its metadata, in seconds.
pub record HistoryEntry : Type 0 where
  pub incident_id : String
  pub previous_value : String
  pub new_value : String
  pub reason : String
  pub activity_at : Time
  pub ages : List ℤ

pub record OutboxEvent : Type 0 where
  pub event_type : String
  pub incident_id : String
  pub previous_status : String
  pub new_status : String
  pub effective_at : Time

pub record Store : Type 0 where
  pub ids : List String
  pub row : String → Option Row
  pub history : List HistoryEntry
  pub outbox : List OutboxEvent

pub data Error : Type 0 where
  unsupported_event bad_aggregate no_payload undecodable invalid_id : Error
  bad_limit database_failed : Error
  refused : Lifecycle.Error → Error

-- `streamString`, where `none` is its false.
abbrev pub filled : String → Option String
filled value = if str_eq value "" then none else some value

abbrev pub text_of : Option FieldValue → Option String
text_of none = none
text_of (some (text value)) = filled value
text_of (some (bytes value)) = filled value
text_of (some number) = none

unfoldable pub stream_string : Fields → String → Option String
unfolding lookup_field
stream_string fields name = text_of (lookup_field fields name)

abbrev pub or_error : {A : Type 0} → Option A → Error → Result Error A
or_error none e = err e
or_error (some a) e = ok a
