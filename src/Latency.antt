-- ===== src/Latency.antt =====
-- internal/latency/timeline.go: the stages of the way from a report to the delivery of its alert.
pub mod Build
pub mod Bottleneck
pub mod Durations
pub mod Tests
-- The stages, in the order of the timeline.
use signa.Prelude.{String, Option, List}
use signa.Prelude.Int.{ℤ}
use signa.Prelude.Time.{Time}

pub data Stage : Type 0 where
  report_persist outbox_publish ai_processing incident_processing priority_evaluation : Stage
  alert_creation delivery_queue delivery_attempt : Stage

-- The values of `StageState`; `unset` is the empty one.
pub data StageState : Type 0 where
  unset completed backlogged failed_retryable failed_terminal unavailable : StageState

pub record Observation : Type 0 where
  pub state : StageState
  pub started_at : Option Time
  pub completed_at : Option Time
  pub last_activity_at : Option Time
  pub failure_kind : String
  pub attempts : ℤ

pub record DeliveryObservation : Type 0 where
  pub observation : Observation
  pub queue_state : StageState
  pub attempt_state : StageState
  pub attempt_started_at : Option Time
  pub attempt_completed_at : Option Time
  pub delivered_at : Option Time

pub record Input : Type 0 where
  pub report_id : String
  pub incident_id : Option String
  pub alert_id : Option String
  pub delivery_id : Option String
  pub now : Time
  pub report_submitted_at : Option Time
  pub report_persisted_at : Option Time
  pub outbox : Observation
  pub ai : Observation
  pub incident : Observation
  pub priority : Observation
  pub alert : Observation
  pub delivery : DeliveryObservation

pub record StageTiming : Type 0 where
  pub name : Stage
  pub state : StageState
  pub started_at : Option Time
  pub completed_at : Option Time
  pub duration_ms : Option ℤ
  pub age_ms : Option ℤ
  pub failure_kind : String
  pub attempt_count : ℤ

pub record Timeline : Type 0 where
  pub report_id : String
  pub incident_id : Option String
  pub alert_id : Option String
  pub delivery_id : Option String
  pub report_persist_ms : Option ℤ
  pub outbox_publish_ms : Option ℤ
  pub ai_processing_ms : Option ℤ
  pub incident_processing_ms : Option ℤ
  pub priority_evaluation_ms : Option ℤ
  pub alert_creation_ms : Option ℤ
  pub delivery_queue_ms : Option ℤ
  pub delivery_attempt_ms : Option ℤ
  pub report_to_alert_ms : Option ℤ
  pub report_to_delivery_ms : Option ℤ
  pub current_bottleneck : Option Stage
  pub stages : List StageTiming
