-- ===== src/Outbox/Tests.antt =====
-- The outbox of internal/outbox/outbox.go with two events.
use signa.Outbox.{Row, Event, stream_event, look_up, map_event, route}
use signa.Outbox.Publisher.{
  State, next_event, publish_cycle, World, update_row, publish_one, publish_from,
}
use signa.Outbox.Publishing.{NoneLost, publish_cycle-NoneLost}
use signa.Prelude.{ℕ, ◌≡◌, refl, false, none, some, [], ◌∷◌, if◌then◌else◌, ◌==◌}
use signa.Prelude.Text.{contains}

abbrev alert : Event
alert = record {
  id = "1";
  event_type = "alert.created";
  aggregate_type = "alert";
  aggregate_id = "a1";
  payload = "{}";
  created_at = "2026-01-01T00:00:00Z";
}

abbrev unsent : Event → Row
unsent event = record { event = event; published = false; retry_attempts = 0; last_error = none }

abbrev two_rows : State
two_rows = record {
  rows = unsent alert ∷ unsent (record alert { id = "2"; event_type = "delivery.requested" }) ∷ [];
  added = [];
}

abbrev calm : World
calm = record {
  claim_fails = false;
  add_error = none;
  mark_error = none;
  mark_took_effect = false;
  record_fails = false;
  cancelled = false;
}

-- The first call fails to mark its event as published; room is 1 then.
abbrev shaky : ℕ → World
shaky room = if room == 1 then record calm { mark_error = some "connection lost" } else calm

cycle-added :
    ((publish_cycle "signa:report-events" shaky 2 two_rows).1).added
    ≡ (
      "signa:delivery-events",
      stream_event
          (record alert { id = "2"; event_type = "delivery.requested" })
          "delivery.requested.v1",
    )
      ∷ ("signa:alert-events", stream_event alert "alert.created.v1")
      ∷ []
unfolding publish_cycle publish_from publish_one next_event map_event look_up update_row route
    contains
cycle-added = refl

publish_cycle-NoneLost_example : NoneLost ((publish_cycle "signa:report-events" shaky 2 two_rows).1)
publish_cycle-NoneLost_example =
    publish_cycle-NoneLost "signa:report-events" shaky 2 two_rows (refl, (refl, tt))
