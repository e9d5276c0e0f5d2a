-- ===== src/Latency/Durations.antt =====
-- The durations and ages of internal/latency/timeline.go.
-- Absent, or not negative.
use signa.Latency.{
  Input, StageState, delivery_attempt, outbox_publish, incident_processing, alert_creation,
  delivery_queue, Stage, priority_evaluation, Observation, ai_processing,
}
use signa.Latency.Build.{
  is_finished, build_timeline, find_stage, is_backlogged, new_stage, at_least_zero,
  duration_milliseconds, stage_state, milliseconds, stages_of, timeline_stage,
}
use signa.Prelude.{
  ◌≡◌, if_case, true, false, ◌&&◌, Option, none, some, [], ◌∷◌, arith, is_some, All, refl, Bool,
  if◌then◌else◌, sym, if_same,
}
use signa.Prelude.Int.{ℤ, pos, ◌≤ℤ◌}
use signa.Prelude.Time.{Time, sub}

abbrev pub NotNegative : Option ℤ → Type 0
NotNegative none = Unit
NotNegative (some d) = pos 0 ≤ℤ d

at_least_zero-not_negative : (d : ℤ) → pos 0 ≤ℤ at_least_zero d
at_least_zero-not_negative d = ground arith

duration-NotNegative : (begin end : Option Time) → NotNegative (duration_milliseconds begin end)
unfolding duration_milliseconds
duration-NotNegative none end = tt
duration-NotNegative (some b) none = tt
duration-NotNegative (some b) (some e) =
    at_least_zero-not_negative (milliseconds (at_least_zero (sub e b)))

and_false : (b : Bool) → (b && false) ≡ false
and_false true = refl
and_false false = refl

-- Of two conditionals whose tests exclude each other, one is absent.
one_absent :
    (c f b : Bool) (x y : Option ℤ)
    → (f && b) ≡ false
    → (is_some (if c && f then x else none) && is_some (if b then y else none)) ≡ false
one_absent false f b x y h = refl
one_absent true false b x y h = refl
one_absent true true b x y h = rw h (and_false (is_some x))

finished-backlogged : (s : StageState) → (is_finished s && is_backlogged s) ≡ false
finished-backlogged s = ground arith

-- A duration that is kept only for a completed stage is the duration all the same.
kept_duration :
    (begin end : Option Time) (b : Bool)
    → (if is_some end && b then duration_milliseconds begin end else none)
      ≡ (if b then duration_milliseconds begin end else none)
unfolding duration_milliseconds
kept_duration begin (some e) b = refl
kept_duration none none b = sym (if_same b none)
kept_duration (some s) none b = sym (if_same b none)

-- A stage never has both a duration and an age: a backlogged stage has at most an age, and any other stage at most a duration. Neither is negative, whatever the order of the recorded times.
pub new_stage-measures :
    (name : Stage) (o : Observation) (now : Time)
    → ((is_some (new_stage name o now).duration_ms && is_some (new_stage name o now).age_ms)
        ≡ false)
      × NotNegative (new_stage name o now).duration_ms
      × NotNegative (new_stage name o now).age_ms
unfolding new_stage
new_stage-measures name o now =
    let state = stage_state o.state o in
    (
      one_absent (is_some o.completed_at) (is_finished state) (is_backlogged state) _ _
          (finished-backlogged state),
      if_case NotNegative (is_some o.completed_at && is_finished state)
          (duration-NotNegative o.started_at o.completed_at) tt,
      if_case NotNegative (is_backlogged state)
          (if_case NotNegative (is_some o.started_at) (duration-NotNegative o.started_at (some now))
            (duration-NotNegative o.last_activity_at (some now)))
          tt,
    )

-- The stages of a timeline with the durations that the timeline gives for them, each of which is that
-- of the finished stage.
abbrev pub HasDurations : Input → Type 0
HasDurations input =
    All
      (λ (entry : Stage × Option ℤ). (timeline_stage (build_timeline input) entry.0).duration_ms ≡ (
        if is_finished (timeline_stage (build_timeline input) entry.0).state
        then entry.1
        else none))
      ((outbox_publish, (build_timeline input).outbox_publish_ms)
        ∷ (ai_processing, (build_timeline input).ai_processing_ms)
        ∷ (incident_processing, (build_timeline input).incident_processing_ms)
        ∷ (priority_evaluation, (build_timeline input).priority_evaluation_ms)
        ∷ (alert_creation, (build_timeline input).alert_creation_ms)
        ∷ (delivery_queue, (build_timeline input).delivery_queue_ms)
        ∷ (delivery_attempt, (build_timeline input).delivery_attempt_ms)
        ∷ [])

-- For each of the stages for which the timeline gives a duration, that is the duration of the stage once it is finished; before that the stage has none.
pub build_timeline-durations : (input : Input) → HasDurations input
unfolding build_timeline timeline_stage stages_of new_stage find_stage
build_timeline-durations input =
    let d = input.delivery in
    (
      kept_duration (input.outbox).started_at (input.outbox).completed_at _,
      (
        kept_duration (input.ai).started_at (input.ai).completed_at _,
        (
          kept_duration (input.incident).started_at (input.incident).completed_at _,
          (
            kept_duration (input.priority).started_at (input.priority).completed_at _,
            (
              kept_duration (input.alert).started_at (input.alert).completed_at _,
              (
                kept_duration (d.observation).started_at d.attempt_started_at _,
                (kept_duration d.attempt_started_at d.attempt_completed_at _, tt),
              ),
            ),
          ),
        ),
      ),
    )
