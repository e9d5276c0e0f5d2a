-- ===== src/Realtime.antt =====
-- internal/realtime/sse.go: the event stream of the HTTP API and the cursor that resumes it. JSON and
-- base64 are parameters, and so is the answer of the database to a query for visibility.
pub mod Ids
pub mod Frames
pub mod Serving
pub mod Tests
use signa.Prelude.{
  ℕ, ◌+◌, ◌-◌, ◌*◌, ◌^◌, String, Bool, true, false, not, ◌&&◌, ◌||◌, Option, none, some, List, [],
  ◌∷◌, ◌++◌, ltb, leb, ◌==◌, if◌then◌else◌, str_eq, is_empty,
}
use signa.Prelude.Result.{Result, ok, err}
use signa.Prelude.Text.{codes}

pub record Event : Type 0 where
  pub stream : String
  pub redis_id : String
  pub event_id : String
  pub name : String
  pub aggregate_id : String
  pub incident_id : String
  pub occurred_at : String
  pub payload : String

pub record Cursor : Type 0 where
  pub incident : String
  pub alert : String

pub data CursorError : Type 0 where
  missing_cursor undecodable_cursor invalid_cursor : CursorError

-- The loop of `strings.Split` with a separator of one character.
abbrev pub prepend : ℕ → List (List ℕ) → List (List ℕ)
prepend c [] = (c ∷ []) ∷ []
prepend c (part ∷ parts) = (c ∷ part) ∷ parts

unfoldable pub split_on : ℕ → List ℕ → List (List ℕ)
split_on sep [] = [] ∷ []
split_on sep (c ∷ s) = let rest = split_on sep s in if c == sep then [] ∷ rest else prepend c rest

abbrev pub is_digit : ℕ → Bool
is_digit c = leb b'0' c && leb c b'9'

unfoldable pub all_digits : List ℕ → Bool
all_digits [] = true
all_digits (c ∷ s) = is_digit c && all_digits s

unfoldable pub decimal_from : ℕ → List ℕ → ℕ
decimal_from n [] = n
decimal_from n (c ∷ s) = decimal_from (10 * n + (c - b'0')) s

-- `strconv.ParseUint(s, 10, 64)` succeeds.
unfoldable pub is_uint64 : List ℕ → Bool
unfolding all_digits decimal_from
is_uint64 s = not (is_empty s) && all_digits s && ltb (decimal_from 0 s) (2 ^ 64)

abbrev pub two_numbers : List (List ℕ) → Bool
two_numbers (a ∷ b ∷ []) = not (is_empty a || is_empty b) && is_uint64 a && is_uint64 b
two_numbers _ = false

-- `validStreamID`.
unfoldable pub valid_stream_id : String → Bool
unfolding split_on is_uint64
valid_stream_id value = str_eq value "$" || two_numbers (split_on b'-' (codes value))

-- `advanceCursor`; nothing stands for its two errors, at which the handler stops.
unfoldable pub advance_cursor : Cursor → Event → Option Cursor
advance_cursor cursor event =
    if str_eq event.redis_id ""
    then none
    else if str_eq event.stream "incident"
    then some (record cursor { incident = event.redis_id })
    else if str_eq event.stream "alert"
    then some (record cursor { alert = event.redis_id })
    else none

abbrev pub is_incomplete : Cursor → Bool
is_incomplete cursor = str_eq cursor.incident "" || str_eq cursor.alert ""

-- `to_text` is the URL-safe base64 of the cursor's JSON, and `from_text` decodes both.
module _ (to_text : Cursor → String) (from_text : String → Option Cursor) where
  -- `EncodeCursor`.
  unfoldable pub encode_cursor : Cursor → Result CursorError String
  encode_cursor cursor = if is_incomplete cursor then err missing_cursor else ok (to_text cursor)

  abbrev pub check_cursor : Option Cursor → Result CursorError Cursor
  check_cursor none = err undecodable_cursor
  check_cursor (some cursor) =
      if is_incomplete cursor
        || not (valid_stream_id cursor.incident)
        || not (valid_stream_id cursor.alert)
      then err invalid_cursor
      else ok cursor

  -- `DecodeCursor`.
  unfoldable pub decode_cursor : String → Result CursorError Cursor
  unfolding valid_stream_id
  decode_cursor value =
      if str_eq value ""
      then ok (record { incident = "$"; alert = "$" })
      else check_cursor (from_text value)

-- `PostgresScopeResolver.Authorize`, whose queries are the two parameters; a query may fail.
unfoldable pub resolve_scope :
    {User QueryError : Type 0}
    → (User → String → Result QueryError Bool)
    → (User → String → String → Result QueryError Bool)
    → User
    → Event
    → Result QueryError Bool
resolve_scope by_incident by_alert user event =
    if str_eq event.stream "incident"
    then by_incident user event.aggregate_id
    else if str_eq event.stream "alert"
    then by_alert user event.aggregate_id event.incident_id
    else ok false

-- `strings.ContainsAny` with a set of one character.
unfoldable pub contains_code : ℕ → List ℕ → Bool
contains_code c [] = false
contains_code c (x ∷ s) = x == c || contains_code c s

-- The data lines of `writeEvent`, each with its newline.
unfoldable pub data_lines : List (List ℕ) → List ℕ
data_lines [] = []
data_lines (line ∷ lines) = codes "data: " ++ line ++ (10 ∷ data_lines lines)

unfoldable pub event_text : String → Event → List ℕ
unfolding split_on data_lines
event_text id event =
    codes "id: "
    ++ codes id
    ++ codes "\nevent: "
    ++ codes event.name
    ++ (10 ∷ data_lines (split_on 10 (codes event.payload)))
    ++ (10 ∷ [])

abbrev pub newline_in : String → Bool
newline_in s = contains_code 13 (codes s) || contains_code 10 (codes s)

-- `writeEvent`: the text that it writes, or nothing if it fails before the first piece.
unfoldable pub write_event : (Cursor → Result CursorError String) → Cursor → Event → Option (List ℕ)
unfolding contains_code event_text
write_event encode cursor event =
    if newline_in event.name
    then none
    else elim (encode cursor) [ ok id ↦ some (event_text id event) | err e ↦ none ]

-- What one result of the source does to a stream: its cursor, the texts written, and whether the
-- handler goes on reading.
pub record Served : Type 0 where
  pub cursor : Cursor
  pub written : List (List ℕ)
  pub goes_on : Bool

abbrev pub add_text : List ℕ → Served → Served
add_text words served = record served { written = words ∷ served.written }

abbrev pub stopped : Cursor → Served
stopped cursor = record { cursor = cursor; written = []; goes_on = false }

-- What the loop does with an event that advanced the cursor, before the rest.
abbrev pub serve_event : Bool → Option (List ℕ) → Cursor → Served → Served
serve_event false words next rest = rest
serve_event true none next rest = stopped next
serve_event true (some words) next rest = add_text words rest

-- The loop over the events of one result in `ServeHTTP`; `allowed` is the authorizer's answer, where
-- an error counts as a refusal.
module _ (encode : Cursor → Result CursorError String) (allowed : Event → Bool) where
  -- One turn, with the cursor that the event advanced and with the rest of the loop.
  abbrev pub serve_next : Option Cursor → Cursor → Event → (Cursor → Served) → Served
  serve_next none cursor event rest = stopped cursor
  serve_next (some next) cursor event rest =
      serve_event (allowed event) (write_event encode next event) next (rest next)

  unfoldable pub serve_events : Cursor → List Event → Served
  serve_events cursor [] = record { cursor = cursor; written = []; goes_on = true }
  serve_events cursor (event ∷ events) =
      serve_next (advance_cursor cursor event) cursor event (λ next. serve_events next events)
