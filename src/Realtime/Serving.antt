-- ===== src/Realtime/Serving.antt =====
-- The loop of `ServeHTTP` in internal/realtime/sse.go over the events of one result.
-- The id of an event of the stream.
use signa.Prelude.{
  ℕ, String, ◌≡◌, refl, sym, ap, ◌⊎◌, inl, inr, Bool, true, false, not, ◌&&◌, ◌||◌, Option, none,
  some, List, map, [], ◌∷◌, ◌++◌, if◌then◌else◌, str_eq, eq_iff, Bool-cases, Option-cases, subst,
  arith,
}
use mathlib.Core.List.{append-nil, append_assoc}
use signa.Prelude.Result.{Result}
use signa.Realtime.{
  Event, Cursor, advance_cursor, Served, add_text, serve_event, write_event, CursorError,
  serve_events,
}

abbrev own_id : String → Event → Option String
own_id stream event = if str_eq event.stream stream then some event.redis_id else none

abbrev or_else : Option String → Option String → Option String
or_else none other = other
or_else (some id) other = some id

-- The id of the last event of the stream, if there is one.
unfoldable pub last_of : String → List Event → Option String
last_of stream [] = none
last_of stream (event ∷ events) = or_else (last_of stream events) (own_id stream event)

abbrev or_id : String → Option String → String
or_id start none = start
or_id start (some id) = id

-- A reader's position after these events: on each stream the last event, or where the reader started.
unfoldable pub position : Cursor → List Event → Cursor
unfolding last_of
position start events = record {
  incident = or_id start.incident (last_of "incident" events);
  alert = or_id start.alert (last_of "alert" events);
}

-- The event has an id and is of one of the two streams.
abbrev pub is_placed : Event → Bool
is_placed event =
    not (str_eq event.redis_id "")
    && (str_eq event.stream "incident" || str_eq event.stream "alert")

last_of-append :
    (stream : String) (events : List Event) (event : Event)
    → last_of stream (events ++ (event ∷ []))
      ≡ or_else (own_id stream event) (last_of stream events)
unfolding last_of
last_of-append stream [] event = elim (Bool-cases (str_eq event.stream stream)) [
  | inl here ↦ rw here refl
  | inr apart ↦ rw apart refl
]
last_of-append stream (x ∷ events) event =
    let ih = last_of-append stream events event in
    elim (Bool-cases (str_eq event.stream stream)) [
      | inl here ↦ rw (ih, here) refl
      | inr apart ↦ rw (ih, apart) refl
    ]

advance_cursor-position :
    (start : Cursor) (before : List Event) (event : Event)
    → is_placed event ≡ true
    → advance_cursor (position start before) event ≡ some (position start (before ++ (event ∷ [])))
unfolding advance_cursor position
advance_cursor-position start before event placed =
    let incident = last_of-append "incident" before event in
    let alert = last_of-append "alert" before event in
    let has_id : str_eq event.redis_id "" ≡ false = ground arith in
    elim (Bool-cases (str_eq event.stream "incident")) [
      | inl e ↦
          let apart : str_eq event.stream "alert" ≡ false =
            subst (λ s. str_eq s "alert" ≡ false) (sym ((eq_iff event.stream "incident").0 e))
              refl in
          rw (incident, alert, has_id, e, apart) refl
      | inr e ↦
          let here : str_eq event.stream "alert" ≡ true = ground arith in
          rw (incident, alert, has_id, e, here) refl
    ]

advance_cursor-stuck :
    (cursor : Cursor) (event : Event) → is_placed event ≡ false → advance_cursor cursor event ≡ none
unfolding advance_cursor
advance_cursor-stuck cursor event unplaced = ground arith

module _ (encode : Cursor → Result CursorError String) (allowed : Event → Bool)
    (start : Cursor) where
  -- What is written of the events that follow the ones in `before`: of each event that the reader may
  -- see, its text under the reader's position at that event.
  unfoldable pub frames : List Event → List Event → List (Option (List ℕ))
  frames before [] = []
  frames before (event ∷ events) =
      let rest = frames (before ++ (event ∷ [])) events in
      if allowed event
      then write_event encode (position start (before ++ (event ∷ []))) event ∷ rest
      else rest

  -- The event after those in `before` cannot be served.
  abbrev pub IsStuck : List Event → Event → Type 0
  IsStuck before event =
      (is_placed event ≡ false)
      ⊎ ((allowed event ≡ true)
          × (write_event encode (position start (before ++ (event ∷ []))) event ≡ none))

  -- The loop has served all of these events, or those before the first that it cannot serve.
  abbrev pub EndsWith : List Event → List Event → Served → Type 0
  EndsWith served [] result = (result.goes_on ≡ true) × (result.cursor ≡ position start served)
  EndsWith served (event ∷ rest) result = (result.goes_on ≡ false) × IsStuck served event

  abbrev pub IsServed : List Event → List Event → Served → Type 0
  IsServed before events result =
      (served : List Event) × (left : List Event) × (events ≡ served ++ left)
      × (map some result.written ≡ frames before served)
      × EndsWith (before ++ served) left result

  EndsWith-add_text :
      (words : List ℕ) (served left : List Event) (result : Served)
      → EndsWith served left result
      → EndsWith served left (add_text words result)
  EndsWith-add_text words served [] result ends = ends
  EndsWith-add_text words served (event ∷ left) result ends = ends

  -- One turn of the loop that goes on, before the rest.
  turn-IsServed :
      (before events : List Event) (event : Event) (rest : Served)
      → IsServed (before ++ (event ∷ [])) events rest
      → IsServed before (event ∷ events) (
          serve_event
            (allowed event)
            (write_event encode (position start (before ++ (event ∷ []))) event)
            (position start (before ++ (event ∷ [])))
            rest)
  unfolding frames
  turn-IsServed before events event rest (served, left, split, written, ends) =
      let longer : events ≡ served ++ left → event ∷ events ≡ (event ∷ served) ++ left =
        ap (λ l. event ∷ l) in
      let regrouped : EndsWith (before ++ (event ∷ served)) left rest =
        subst (λ l. EndsWith l left rest) (append_assoc before (event ∷ []) served) ends in
      elim (Bool-cases (allowed event)) [
        | inr hidden ↦ rw hidden (event ∷ served, left, longer split, rw hidden written, regrouped)
        | inl seen ↦
            elim (Option-cases
              (write_event encode (position start (before ++ (event ∷ []))) event)) [
                | inl failed ↦
                    rw (seen, failed)
                      ([], event ∷ events, refl, refl, rw append-nil (refl, inr (seen, failed)))
                | inr (words, text) ↦
                    rw (seen, text)
                      (
                        event ∷ served,
                        left,
                        longer split,
                        rw (seen, text) (ap (λ l. some words ∷ l) written),
                        EndsWith-add_text words (before ++ (event ∷ served)) left rest regrouped,
                      )
              ]
      ]

  serve-IsServed :
      (before events : List Event)
      → IsServed before events (serve_events encode allowed (position start before) events)
  unfolding serve_events frames
  serve-IsServed before [] = ([], [], refl, refl, rw append-nil (refl, refl))
  serve-IsServed before (event ∷ events) = elim (Bool-cases (is_placed event)) [
    | inr unplaced ↦
        rw (advance_cursor-stuck (position start before) event unplaced)
          ([], event ∷ events, refl, refl, rw append-nil (refl, inl unplaced))
    | inl placed ↦
        rw (advance_cursor-position start before event placed)
          (turn-IsServed before events event _ (serve-IsServed (before ++ (event ∷ [])) events))
  ]

  -- What a reader gets of the events of one result: of the events up to the first that cannot be served, the texts of exactly those that the reader may see, in their order, each under the position that the reader then has on both streams, events that are not shown included. If all can be served, the handler goes on, from the position after them; an event cannot be served that has no id, is of neither stream, or is to be shown and cannot be written.
  pub serve_events-IsServed :
      (events : List Event) → IsServed [] events (serve_events encode allowed start events)
  unfolding position
  serve_events-IsServed events = serve-IsServed [] events
