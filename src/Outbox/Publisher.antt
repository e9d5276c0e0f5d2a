-- ===== src/Outbox/Publisher.antt =====
-- The publisher of internal/outbox/outbox.go: `publishOne` and `PublishCycle`.
-- What the world does to one call of `publishOne`: whether claiming the event fails, what XADD answers,
-- whether the transaction that marks the event as published fails, whether such a failed commit has
-- taken effect all the same, whether recording a failure fails, and whether the context is cancelled.
use Prim.Native.String.{len, slice}
use signa.Outbox.{Row, Event, queried_types, StreamEvent, route, map_event}
use signa.Prelude.{
  ℕ, zero, suc, ◌+◌, String, Bool, true, false, not, ◌&&◌, ◌||◌, Option, none, some, List, [], ◌∷◌,
  leb, if◌then◌else◌, str_eq,
}
use signa.Prelude.Text.{contains}

pub record World : Type 0 where
  pub claim_fails : Bool
  pub add_error : Option String
  pub mark_error : Option String
  pub mark_took_effect : Bool
  pub record_fails : Bool
  pub cancelled : Bool

pub record State : Type 0 where
  pub rows : List Row
  pub added : List (String × StreamEvent)

-- The query: the first row that is not published, whose type is asked for and whose id is not attempted.
unfoldable pub next_event : List String → List Row → Option Event
unfolding contains
next_event attempted [] = none
next_event attempted (r ∷ rows) =
    let rest = next_event attempted rows in
    if not r.published
      && contains queried_types (r.event).event_type
      && not (contains attempted (r.event).id)
    then some r.event
    else rest

-- `UPDATE outbox_events ... WHERE id = $1`.
unfoldable pub update_row : String → (Row → Row) → List Row → List Row
update_row id change [] = []
update_row id change (r ∷ rows) =
    (if str_eq (r.event).id id then change r else r) ∷ update_row id change rows

abbrev pub truncate_error : String → String
truncate_error message = if leb (len message) 1000 then message else slice message 0 1000

abbrev pub note_failure : String → Row → Row
note_failure message r = record r {
  retry_attempts = r.retry_attempts + 1;
  last_error = some (truncate_error message);
}

abbrev pub mark_published : Row → Row
mark_published r = record r { published = true; last_error = none }

-- The result of `publishOne`: the claimed event, and whether it was published or the call failed.
pub record Outcome : Type 0 where
  pub event : Option Event
  pub published : Bool
  pub failed : Bool

-- `recordFailure`.
abbrev pub record_failure : World → Event → String → State → State
record_failure world event message s =
    if world.record_fails
    then s
    else record s { rows = update_row event.id (note_failure message) s.rows }

abbrev pub note_unpublished : String → Row → Row
note_unpublished message r = if r.published then r else note_failure message r

-- `recordAcknowledgementFailure`, which leaves an event alone that is published after all.
abbrev pub record_acknowledgement_failure : World → Event → String → State → State
record_acknowledgement_failure world event message s =
    if world.record_fails
    then s
    else record s { rows = update_row event.id (note_unpublished message) s.rows }

abbrev pub failure : Event → Outcome
failure event = record { event = some event; published = false; failed = true }

abbrev pub marked : World → Event → State → State
marked world event s = record s { rows = update_row event.id mark_published s.rows }

-- The end of `publishOne`, after XADD.
abbrev pub finish_publish : World → Event → State → Outcome × State
finish_publish world event s = elim world.mark_error [
  | none ↦ (record { event = some event; published = true; failed = false }, marked world event s)
  | some message ↦ (
    failure event,
    record_acknowledgement_failure world event message
        (if world.mark_took_effect then marked world event s else s),
  )
]

abbrev pub add_event : String → World → Event → StreamEvent → State → Outcome × State
add_event own world event mapped s = elim world.add_error [
  | some message ↦ (failure event, record_failure world event message s)
  | none ↦
      finish_publish world event
        (record s { added = (route event.event_type own, mapped) ∷ s.added })
]

-- `publishOne`, for a publisher whose own stream is `own`.
unfoldable pub publish_one : String → World → List String → State → Outcome × State
unfolding next_event update_row map_event route
publish_one own world attempted s =
    if world.claim_fails
    then (record { event = none; published = false; failed = true }, s)
    else elim (next_event attempted s.rows) [
      | none ↦ (record { event = none; published = false; failed = false }, s)
      | some event ↦ elim (map_event event) [
        | none ↦ (failure event, record_failure world event "unsupported outbox event type" s)
        | some mapped ↦ add_event own world event mapped s
      ]
    ]

-- The loop of `PublishCycle`, with the number of events that the batch still has room for; each turn
-- that goes on has claimed an event that was not attempted before. The result says whether it failed.
unfoldable pub publish_from : String → (ℕ → World) → ℕ → Bool → List String → State → Bool × State
publish_from own world zero failed attempted s = (failed, s)
publish_from own world (suc room) failed attempted s =
    let (outcome, s') = publish_one own (world room) attempted s in
    elim outcome.event [
      | none ↦ (failed || outcome.failed, s')
      | some event ↦
          let rest =
            publish_from own world room (failed || outcome.failed) (event.id ∷ attempted) s' in
          if outcome.failed && (world room).cancelled then (true, s') else rest
    ]

-- `PublishCycle`.
unfoldable pub publish_cycle : String → (ℕ → World) → ℕ → State → Bool × State
unfolding publish_one publish_from
publish_cycle own world batch_size s = publish_from own world batch_size false [] s
