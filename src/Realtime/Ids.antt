-- ===== src/Realtime/Ids.antt =====
-- The stream ids and the cursors of internal/realtime/sse.go, from one connection to the next.
use signa.Prelude.{
  ℕ, List, [], ◌∷◌, All, Bool, none, Option-cases, not, ◌||◌, arith, String, ◌≡◌, subst, refl, ◌≢◌,
  inl, inr, true, false, Option, some, str_eq, eq_iff, Bool-cases,
}
use signa.Prelude.Result.{Result, ok, ok_inj}
use signa.Realtime.{
  advance_cursor, Event, CursorError, Served, serve_event, serve_events, write_event, check_cursor,
  decode_cursor, split_on, is_incomplete, Cursor, valid_stream_id, is_uint64, encode_cursor,
}

empty_lem : valid_stream_id "" ≢ true
unfolding valid_stream_id split_on is_uint64
empty_lem h = cc

str_eq-apart : (a b : String) → a ≢ b → str_eq a b ≡ false
str_eq-apart a b apart = elim (Bool-cases (str_eq a b)) [
  | inl e ↦ absurd (apart ((eq_iff a b).0 e))
  | inr e ↦ e
]

valid-not_empty : (s : String) → valid_stream_id s ≡ true → str_eq s "" ≡ false
valid-not_empty s h = elim (Bool-cases (str_eq s "")) [
  | inl empty ↦ absurd (empty_lem (subst (λ k. valid_stream_id k ≡ true) ((eq_iff s "").0 empty) h))
  | inr full ↦ full
]

-- The two ids of a cursor are valid stream ids.
abbrev pub IsValidCursor : Cursor → Type 0
IsValidCursor cursor =
    (valid_stream_id cursor.incident ≡ true) × (valid_stream_id cursor.alert ≡ true)

abbrev pub HasValidId : Event → Type 0
HasValidId event = valid_stream_id event.redis_id ≡ true

cursor_inj : {a b : Cursor} → Path (Option Cursor) (some a) (some b) → a ≡ b
cursor_inj e = cc

dollar_lem : valid_stream_id "$" ≡ true
unfolding valid_stream_id
dollar_lem = refl

advance_cursor-IsValidCursor :
    (cursor next : Cursor) (event : Event)
    → IsValidCursor cursor
    → HasValidId event
    → advance_cursor cursor event ≡ some next
    → IsValidCursor next
unfolding advance_cursor
advance_cursor-IsValidCursor cursor next event (incident, alert) valid e =
    elim (Bool-cases (str_eq event.redis_id "")) [
      | inl blank ↦ let never = rw blank at e in absurd (cc)
      | inr named ↦ elim (Bool-cases (str_eq event.stream "incident")) [
        | inl first ↦ subst IsValidCursor (cursor_inj (rw (named, first) at e)) (valid, alert)
        | inr apart ↦ elim (Bool-cases (str_eq event.stream "alert")) [
          | inl second ↦
              subst IsValidCursor (cursor_inj (rw (named, apart, second) at e)) (incident, valid)
          | inr apart2 ↦ let never = rw (named, apart, apart2) at e in absurd (cc)
        ]
      ]
    ]

module _ (encode : Cursor → Result CursorError String) (allowed : Event → Bool) where
  serve_event-IsValidCursor :
      (seen : Bool) (words : Option (List ℕ)) (next : Cursor) (rest : Served)
      → IsValidCursor next
      → IsValidCursor rest.cursor
      → IsValidCursor (serve_event seen words next rest).cursor
  serve_event-IsValidCursor false words next rest v w = w
  serve_event-IsValidCursor true none next rest v w = v
  serve_event-IsValidCursor true (some _) next rest v w = w

  serve_events-IsValidCursor :
      (cursor : Cursor) (events : List Event)
      → IsValidCursor cursor
      → All HasValidId events
      → IsValidCursor (serve_events encode allowed cursor events).cursor
  unfolding serve_events
  serve_events-IsValidCursor cursor [] v all = v
  serve_events-IsValidCursor cursor (event ∷ events) v (first, all) =
      elim (Option-cases (advance_cursor cursor event)) [
        | inl stuck ↦ rw stuck v
        | inr (next, moved) ↦
            let v2 = advance_cursor-IsValidCursor cursor next event v first moved in
            rw moved (
              serve_event-IsValidCursor (allowed event) (write_event encode next event) next _ v2
                (serve_events-IsValidCursor next events v2 all))
      ]

module _ (to_text : Cursor → String) (from_text : String → Option Cursor) where
  check_cursor-IsValidCursor :
      (o : Option Cursor) (cursor : Cursor)
      → check_cursor to_text from_text o ≡ ok cursor
      → IsValidCursor cursor
  check_cursor-IsValidCursor none cursor e = absurd (cc)
  check_cursor-IsValidCursor (some c) cursor e =
      elim (Bool-cases
        (is_incomplete c || not (valid_stream_id c.incident) || not (valid_stream_id c.alert))) [
          | inl bad ↦ let never = rw bad at e in absurd (cc)
          | inr good ↦ subst IsValidCursor (ok_inj (rw good at e)) (ground arith, ground arith)
        ]

  decode_cursor-IsValidCursor :
      (value : String) (cursor : Cursor)
      → decode_cursor to_text from_text value ≡ ok cursor
      → IsValidCursor cursor
  unfolding decode_cursor
  decode_cursor-IsValidCursor value cursor e = elim (Bool-cases (str_eq value "")) [
    | inl blank ↦ subst IsValidCursor (ok_inj (rw blank at e)) (dollar_lem, dollar_lem)
    | inr full ↦ check_cursor-IsValidCursor (from_text value) cursor (rw full at e)
  ]

  -- The library reads back what it wrote, and writes no empty text.
  abbrev pub ReadsBack : Type 0
  ReadsBack =
      (cursor : Cursor)
      → IsValidCursor cursor
      → (from_text (to_text cursor) ≡ some cursor) × (to_text cursor ≢ "")

  -- A reader can go on where it was: if the library reads back the texts that it writes for cursors of valid stream ids, a connection begins at a text that is accepted, and the events have valid stream ids, then the cursor that the loop reaches, whatever it shows and wherever it stops, is encoded, and a connection that begins at its text begins at that cursor.
  pub decode_cursor-serve_events :
      ReadsBack
      → (allowed : Event → Bool) (value : String) (start : Cursor) (events : List Event)
      → decode_cursor to_text from_text value ≡ ok start
      → All HasValidId events
      → (id : String) × (encode_cursor to_text from_text
            (serve_events (encode_cursor to_text from_text) allowed start events).cursor
          ≡ ok id)
        × (decode_cursor to_text from_text id
            ≡ ok (serve_events (encode_cursor to_text from_text) allowed start events).cursor)
  unfolding encode_cursor decode_cursor
  decode_cursor-serve_events library allowed value start events begun ids =
      let last = (serve_events (encode_cursor to_text from_text) allowed start events).cursor in
      let (valid, valid2) =
        serve_events-IsValidCursor (encode_cursor to_text from_text) allowed start events
          (decode_cursor-IsValidCursor value start begun) ids in
      let (back, visible) = library last (valid, valid2) in
      let whole : is_incomplete last ≡ false =
        rw (valid-not_empty last.incident valid, valid-not_empty last.alert valid2) refl in
      let not_blank : str_eq (to_text last) "" ≡ false = str_eq-apart (to_text last) "" visible in
      (to_text last, rw whole refl, rw (not_blank, back, whole, valid, valid2) refl)
