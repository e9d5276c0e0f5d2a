-- ===== src/Outbox/Publishing.antt =====
-- The rows that internal/outbox/outbox.go marks as published, and what Redis has got.
use signa.Outbox.{Row, Event, look_up, map_event, route, StreamEvent, event_names, with_name}
use signa.Outbox.Publisher.{
  State, Outcome, next_event, publish_cycle, World, note_unpublished,
  record_acknowledgement_failure, note_failure, mark_published, update_row, add_event,
  finish_publish, publish_one, record_failure, publish_from, marked,
}
use signa.Prelude.{
  ℕ, zero, suc, String, ◌≡◌, subst, if_case, option_case, refl, sym, inl, inr, Bool, true, false,
  ◌&&◌, ◌||◌, some, List, [], ◌∷◌, arith, if◌then◌else◌, str_eq, eq_iff, eq_refl, Bool-cases,
  Option-cases, All, Option, none, not,
}
use signa.Prelude.Text.{contains}

abbrev pub added_ids : List (String × StreamEvent) → List String
added_ids [] = []
added_ids ((stream, e) ∷ added) = e.event_id ∷ added_ids added

-- The event of a row that is published has been added to a stream.
abbrev pub Accounted : List (String × StreamEvent) → Row → Type 0
Accounted added r = (not r.published || contains (added_ids added) (r.event).id) ≡ true

abbrev pub NoneLost : State → Type 0
NoneLost s = All (Accounted s.added) s.rows

more_true : (p a b : Bool) → (not p || b) ≡ true → (not p || (a || b)) ≡ true
more_true p a b h = ground arith

update_row-Accounted :
    (added : List (String × StreamEvent)) (id : String) (change : Row → Row) (rows : List Row)
    → ((r : Row) → (r.event).id ≡ id → Accounted added r → Accounted added (change r))
    → All (Accounted added) rows
    → All (Accounted added) (update_row id change rows)
unfolding update_row
update_row-Accounted added id change [] kept h = tt
update_row-Accounted added id change (r ∷ rows) kept (p, h) = (
  elim (Bool-cases (str_eq (r.event).id id)) [
    | inl same ↦ rw same (kept r ((eq_iff (r.event).id id).0 same) p)
    | inr other ↦ rw other p
  ],
  update_row-Accounted added id change rows kept h,
)

Accounted-more :
    (added : List (String × StreamEvent)) (stream : String) (e : StreamEvent) (rows : List Row)
    → All (Accounted added) rows
    → All (Accounted ((stream, e) ∷ added)) rows
unfolding contains
Accounted-more added stream e [] h = tt
Accounted-more added stream e (r ∷ rows) (p, h) = (
  more_true r.published (str_eq e.event_id (r.event).id) _ p,
  Accounted-more added stream e rows h,
)

record_failure-NoneLost :
    (world : World) (event : Event) (message : String) (s : State)
    → NoneLost s
    → NoneLost (record_failure world event message s)
record_failure-NoneLost world event message s h =
    if_case NoneLost world.record_fails h
      (update_row-Accounted s.added event.id (note_failure message) s.rows (λ r same p. p) h)

record_acknowledgement_failure-NoneLost :
    (world : World) (event : Event) (message : String) (s : State)
    → NoneLost s
    → NoneLost (record_acknowledgement_failure world event message s)
record_acknowledgement_failure-NoneLost world event message s h =
    if_case NoneLost world.record_fails h (
      update_row-Accounted s.added event.id (note_unpublished message) s.rows
        (λ r same p. if_case (Accounted s.added) r.published p p) h)

marked-NoneLost :
    (world : World) (event : Event) (s : State)
    → contains (added_ids s.added) event.id ≡ true
    → NoneLost s
    → NoneLost (marked world event s)
marked-NoneLost world event s there h =
    update_row-Accounted s.added event.id mark_published s.rows
      (λ r same p. subst (λ i. contains (added_ids s.added) i ≡ true) (sym same) there) h

finish_publish-NoneLost :
    (world : World) (event : Event) (s : State)
    → contains (added_ids s.added) event.id ≡ true
    → NoneLost s
    → NoneLost ((finish_publish world event s).1)
finish_publish-NoneLost world event s there h =
    option_case (λ (r : Outcome × State). NoneLost r.1) world.mark_error
      (λ message.
        record_acknowledgement_failure-NoneLost world event message
          (if world.mark_took_effect then marked world event s else s)
          (if_case NoneLost world.mark_took_effect (marked-NoneLost world event s there h) h))
      (marked-NoneLost world event s there h)

add_event-NoneLost :
    (own : String) (world : World) (event : Event) (mapped : StreamEvent) (s : State)
    → mapped.event_id ≡ event.id
    → NoneLost s
    → NoneLost ((add_event own world event mapped s).1)
unfolding contains
add_event-NoneLost own world event mapped s same h =
    option_case (λ (r : Outcome × State). NoneLost r.1) world.add_error
      (λ message. record_failure-NoneLost world event message s h)
      (finish_publish-NoneLost world event
        (record s { added = (route event.event_type own, mapped) ∷ s.added })
        (rw (same, eq_refl event.id) refl)
        (Accounted-more s.added (route event.event_type own) mapped s.rows h))

with_name-id :
    (event : Event) (o : Option String) (mapped : StreamEvent)
    → with_name event o ≡ some mapped
    → mapped.event_id ≡ event.id
with_name-id event none mapped e = absurd (cc)
with_name-id event (some name) mapped e = cc

map_event-id :
    (event : Event) (mapped : StreamEvent)
    → map_event event ≡ some mapped
    → mapped.event_id ≡ event.id
unfolding map_event
map_event-id event mapped e = with_name-id event (look_up event_names event.event_type) mapped e

publish_one-NoneLost :
    (own : String) (world : World) (attempted : List String) (s : State)
    → NoneLost s
    → NoneLost ((publish_one own world attempted s).1)
unfolding publish_one
publish_one-NoneLost own world attempted s h =
    let P = λ (r : Outcome × State). NoneLost r.1 in
    if_case P world.claim_fails h (
      option_case P (next_event attempted s.rows)
        (λ event. elim (Option-cases (map_event event)) [
          | inl unknown ↦
              rw unknown (record_failure-NoneLost world event "unsupported outbox event type" s h)
          | inr (mapped, known) ↦
              rw known
                (add_event-NoneLost own world event mapped s (map_event-id event mapped known) h)
        ])
        h)

publish_from-NoneLost :
    (own : String) (world : ℕ → World) (room : ℕ) (failed : Bool) (attempted : List String)
    (s : State)
    → NoneLost s
    → NoneLost ((publish_from own world room failed attempted s).1)
unfolding publish_from
publish_from-NoneLost own world zero failed attempted s h = h
publish_from-NoneLost own world (suc room) failed attempted s h =
    let P = λ (r : Bool × State). NoneLost r.1 in
    let turn = publish_one own (world room) attempted s in
    let kept = publish_one-NoneLost own (world room) attempted s h in
    option_case P turn.0.event
      (λ event. if_case P (turn.0.failed && (world room).cancelled) kept (
        publish_from-NoneLost own world room (failed || turn.0.failed) (event.id ∷ attempted) turn.1
          kept))
      kept

-- No cycle of the publisher loses an event, whatever fails on the way: if every row that is marked as published had its event added to a stream, that is so after the cycle.
pub publish_cycle-NoneLost :
    (own : String) (world : ℕ → World) (batch_size : ℕ) (s : State)
    → NoneLost s
    → NoneLost ((publish_cycle own world batch_size s).1)
unfolding publish_cycle
publish_cycle-NoneLost own world batch_size s h =
    publish_from-NoneLost own world batch_size false [] s h
