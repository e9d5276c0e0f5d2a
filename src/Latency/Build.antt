-- ===== src/Latency/Build.antt =====
-- `BuildTimeline` of internal/latency/timeline.go and what it calls.
-- `Duration.Milliseconds`, which divides towards zero.
use signa.Latency.{
  Input, incident_processing, unavailable, failed_terminal, report_persist, failed_retryable,
  backlogged, alert_creation, delivery_queue, outbox_publish, StageTiming, priority_evaluation,
  completed, Timeline, Observation, ai_processing, Stage, delivery_attempt, unset, StageState,
  DeliveryObservation,
}
use signa.Prelude.{
  ℕ, suc, ◌/◌, Bool, true, false, ◌&&◌, Option, none, some, List, [], ◌∷◌, ◌==◌, if◌then◌else◌,
  is_some,
}
use signa.Prelude.Int.{sub_ℕ, ℤ, pos, negsuc, ltb_ℤ}
use signa.Prelude.Time.{Time, Duration, sub}

abbrev pub milliseconds : Duration → ℤ
milliseconds (pos n) = pos (n / 1_000_000)
milliseconds (negsuc n) = sub_ℕ 0 (suc n / 1_000_000)

abbrev pub at_least_zero : ℤ → ℤ
at_least_zero d = if ltb_ℤ d (pos 0) then pos 0 else d

-- `durationMilliseconds`.
unfoldable pub duration_milliseconds : Option Time → Option Time → Option ℤ
duration_milliseconds (some begin) (some end) =
    some (at_least_zero (milliseconds (at_least_zero (sub end begin))))
duration_milliseconds _ _ = none

abbrev pub observation_for_report : Option Time → Observation
observation_for_report persisted = record {
  state = if is_some persisted then completed else unavailable;
  started_at = none;
  completed_at = persisted;
  last_activity_at = none;
  failure_kind = "";
  attempts = pos 0;
}

abbrev pub inferred_state : Observation → StageState
inferred_state o =
    if is_some o.completed_at
    then completed
    else if is_some o.started_at
    then backlogged
    else unavailable

abbrev pub stage_state : StageState → Observation → StageState
stage_state unset o = inferred_state o
stage_state state o = state

abbrev pub is_backlogged : StageState → Bool
is_backlogged backlogged = true
is_backlogged _ = false

-- The states of a stage that has a duration, once it is completed.
abbrev pub is_finished : StageState → Bool
is_finished completed = true
is_finished failed_retryable = true
is_finished failed_terminal = true
is_finished _ = false

-- The states that hold a report up.
abbrev pub is_blocking : StageState → Bool
is_blocking backlogged = true
is_blocking failed_retryable = true
is_blocking failed_terminal = true
is_blocking _ = false

-- `newStage`.
unfoldable pub new_stage : Stage → Observation → Time → StageTiming
unfolding duration_milliseconds
new_stage name o now =
    let state = stage_state o.state o in
    record {
      name = name;
      state = state;
      started_at = o.started_at;
      completed_at = o.completed_at;
      duration_ms =
          if is_some o.completed_at && is_finished state
          then duration_milliseconds o.started_at o.completed_at
          else none;
      age_ms =
          if is_backlogged state
          then if is_some o.started_at
            then duration_milliseconds o.started_at (some now)
            else duration_milliseconds o.last_activity_at (some now)
          else none;
      failure_kind = o.failure_kind;
      attempt_count = o.attempts;
    }

abbrev pub queue_observation : DeliveryObservation → Observation
queue_observation d = record {
  state = d.queue_state;
  started_at = (d.observation).started_at;
  completed_at = d.attempt_started_at;
  last_activity_at = (d.observation).last_activity_at;
  failure_kind = (d.observation).failure_kind;
  attempts = pos 0;
}

abbrev pub attempt_observation : DeliveryObservation → Observation
attempt_observation d = record {
  state = d.attempt_state;
  started_at = d.attempt_started_at;
  completed_at = d.attempt_completed_at;
  last_activity_at = (d.observation).last_activity_at;
  failure_kind = (d.observation).failure_kind;
  attempts = (d.observation).attempts;
}

unfoldable pub stages_of : Input → List StageTiming
unfolding new_stage
stages_of input =
    new_stage report_persist (observation_for_report input.report_persisted_at) input.now
    ∷ new_stage outbox_publish input.outbox input.now
    ∷ new_stage ai_processing input.ai input.now
    ∷ new_stage incident_processing input.incident input.now
    ∷ new_stage priority_evaluation input.priority input.now
    ∷ new_stage alert_creation input.alert input.now
    ∷ new_stage delivery_queue (queue_observation input.delivery) input.now
    ∷ new_stage delivery_attempt (attempt_observation input.delivery) input.now
    ∷ []

-- The loop that looks for the first stage that holds the report up.
unfoldable pub bottleneck : List StageTiming → Option Stage
bottleneck [] = none
bottleneck (t ∷ stages) = if is_blocking t.state then some t.name else bottleneck stages

-- `BuildTimeline`.
unfoldable pub build_timeline : Input → Timeline
unfolding stages_of bottleneck duration_milliseconds
build_timeline input =
    let d = input.delivery in
    let stages = stages_of input in
    record {
      report_id = input.report_id;
      incident_id = input.incident_id;
      alert_id = input.alert_id;
      delivery_id = input.delivery_id;
      report_persist_ms = none;
      outbox_publish_ms =
          duration_milliseconds (input.outbox).started_at (input.outbox).completed_at;
      ai_processing_ms = duration_milliseconds (input.ai).started_at (input.ai).completed_at;
      incident_processing_ms =
          duration_milliseconds (input.incident).started_at (input.incident).completed_at;
      priority_evaluation_ms =
          duration_milliseconds (input.priority).started_at (input.priority).completed_at;
      alert_creation_ms = duration_milliseconds (input.alert).started_at (input.alert).completed_at;
      delivery_queue_ms = duration_milliseconds (d.observation).started_at d.attempt_started_at;
      delivery_attempt_ms = duration_milliseconds d.attempt_started_at d.attempt_completed_at;
      report_to_alert_ms =
          duration_milliseconds input.report_submitted_at (input.alert).completed_at;
      report_to_delivery_ms = duration_milliseconds input.report_submitted_at d.delivered_at;
      current_bottleneck = bottleneck stages;
      stages = stages;
    }

-- `Timeline.Stage`; equality of the names is by their position.
abbrev pub position : Stage → ℕ
position report_persist = 0
position outbox_publish = 1
position ai_processing = 2
position incident_processing = 3
position priority_evaluation = 4
position alert_creation = 5
position delivery_queue = 6
position delivery_attempt = 7

abbrev pub unavailable_stage : Stage → StageTiming
unavailable_stage name = record {
  name = name;
  state = unavailable;
  started_at = none;
  completed_at = none;
  duration_ms = none;
  age_ms = none;
  failure_kind = "";
  attempt_count = pos 0;
}

unfoldable pub find_stage : List StageTiming → Stage → StageTiming
find_stage [] name = unavailable_stage name
find_stage (t ∷ stages) name =
    if position t.name == position name then t else find_stage stages name

-- `Timeline.Stage`.
unfoldable pub timeline_stage : Timeline → Stage → StageTiming
unfolding find_stage
timeline_stage timeline name = find_stage timeline.stages name
