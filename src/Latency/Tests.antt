-- ===== src/Latency/Tests.antt =====
-- The timeline of internal/latency/timeline.go for a report that waits for its priority.
use signa.Latency.{
  Input, outbox_publish, unset, StageTiming, priority_evaluation, unavailable, Observation,
  ai_processing,
}
use signa.Latency.Bottleneck.{build_timeline-bottleneck}
use signa.Latency.Build.{
  build_timeline, bottleneck, new_stage, is_blocking, stages_of, timeline_stage,
}
use signa.Prelude.{ℕ, ◌≡◌, refl, true, false, none, some, arith}
use signa.Prelude.Int.{pos}

abbrev idle : Observation
idle = record {
  state = unset;
  started_at = none;
  completed_at = none;
  last_activity_at = none;
  failure_kind = "";
  attempts = pos 0;
}

abbrev between : ℕ → ℕ → Observation
between from to = record idle { started_at = some (pos from); completed_at = some (pos to) }

abbrev waiting_input : Input
waiting_input = record {
  report_id = "r1";
  incident_id = some "i1";
  alert_id = none;
  delivery_id = none;
  now = pos 90_000_000;
  report_submitted_at = some (pos 0);
  report_persisted_at = some (pos 1_000_000);
  outbox = between 1_000_000 3_000_000;
  ai = between 3_000_000 9_000_000;
  incident = between 9_000_000 12_000_000;
  priority = record idle { started_at = some (pos 12_000_000) };
  alert = idle;
  delivery = record {
    observation = idle;
    queue_state = unavailable;
    attempt_state = unavailable;
    attempt_started_at = none;
    attempt_completed_at = none;
    delivered_at = none;
  };
}

waiting-bottleneck : (build_timeline waiting_input).current_bottleneck ≡ some priority_evaluation
unfolding build_timeline stages_of new_stage bottleneck
waiting-bottleneck = refl

build_timeline-bottleneck_example :
    (is_blocking (timeline_stage (build_timeline waiting_input) priority_evaluation).state ≡ true)
    × (is_blocking (timeline_stage (build_timeline waiting_input) ai_processing).state ≡ false)
build_timeline-bottleneck_example =
    build_timeline-bottleneck waiting_input priority_evaluation ai_processing waiting-bottleneck
      (omega arith)

abbrev outbox_stage : StageTiming
outbox_stage = new_stage outbox_publish (between 1_000_000 3_000_000) (pos 90_000_000)
