-- ===== src/Realtime/Tests.antt =====
-- The event stream of internal/realtime/sse.go for a short sequence of events.
use Prim.Native.Char.{Char, code}
use signa.Prelude.{
  ap, ◌≢◌, ◌==◌, ℕ, String, ◌≡◌, refl, Bool, true, false, some, List, [], ◌∷◌, ◌++◌, str_eq, All,
  Option, none, if◌then◌else◌,
}
use signa.Prelude.Result.{Result, ok}
use signa.Prelude.Text.{concat, codes}
use signa.Realtime.{
  Served, serve_events, contains_code, advance_cursor, Event, write_event, data_lines, CursorError,
  Cursor, newline_in, event_text, is_uint64, split_on, valid_stream_id, decimal_from, decode_cursor,
  encode_cursor, all_digits,
}
use signa.Realtime.Frames.{join_with, Free, write_event-lines}
use signa.Realtime.Ids.{ReadsBack, HasValidId, decode_cursor-serve_events}
use signa.Realtime.Serving.{IsServed, serve_events-IsServed}

abbrev event : String → String → Event
event stream id = record {
  stream = stream;
  redis_id = id;
  event_id = "e";
  name = "alert.created.v1";
  aggregate_id = "a1";
  incident_id = "i1";
  occurred_at = "";
  payload = "{\n}";
}

abbrev beginning : Cursor
beginning = record { incident = "$"; alert = "$" }

-- A code for cursors of ids without the separator; it is enough for a test.
abbrev encode : Cursor → Result CursorError String
encode cursor = ok (concat cursor.incident (concat "," cursor.alert))

abbrev sees_alerts : Event → Bool
sees_alerts e = str_eq e.stream "alert"

abbrev first_events : List Event
first_events = event "incident" "1-0" ∷ event "alert" "2-0" ∷ []

first-goes_on : (serve_events encode sees_alerts beginning first_events).goes_on ≡ true
unfolding serve_events advance_cursor write_event contains_code
first-goes_on = refl

first-cursor :
    (serve_events encode sees_alerts beginning first_events).cursor
    ≡ record { incident = "1-0"; alert = "2-0" }
unfolding serve_events advance_cursor write_event contains_code
first-cursor = refl

serve_events-IsServed_example :
    IsServed encode sees_alerts beginning [] first_events
      (serve_events encode sees_alerts beginning first_events)
serve_events-IsServed_example = serve_events-IsServed encode sees_alerts beginning first_events

none-goes_on : (serve_events encode (λ e. false) beginning first_events).goes_on ≡ true
unfolding serve_events advance_cursor
none-goes_on = refl

alert_text :
    write_event encode beginning (event "alert" "2-0")
    ≡ some (event_text "$,$" (event "alert" "2-0"))
unfolding write_event contains_code
alert_text = refl

write_event-lines_example :
    (newline_in "alert.created.v1" ≡ false)
    × (id : String) × (lines : List (List ℕ)) × (encode beginning ≡ ok id)
    × (event_text "$,$" (event "alert" "2-0")
        ≡ codes "id: "
          ++ codes id
          ++ codes "\nevent: "
          ++ codes "alert.created.v1"
          ++ (10 ∷ data_lines lines)
          ++ (10 ∷ []))
    × All (Free 10) lines
    × (join_with 10 lines ≡ codes "{\n}")
write_event-lines_example =
    write_event-lines encode beginning (event "alert" "2-0")
      (event_text "$,$" (event "alert" "2-0")) alert_text

-- A code for cursors that can be read back: each character of the first id after a comma, then a dot
-- and the second id.
abbrev join : String → String → String
join String.[] alert = String.◌∷◌ "." alert
join (String.◌∷◌ c incident) alert = String.◌∷◌ "," (String.◌∷◌ c (join incident alert))

abbrev to_text : Cursor → String
to_text cursor = join cursor.incident cursor.alert

abbrev with_first : Char → Option Cursor → Option Cursor
with_first c none = none
with_first c (some cursor) = some (record cursor { incident = String.◌∷◌ c cursor.incident })

abbrev from_text : String → Option Cursor
from_text String.[] = none
from_text (String.◌∷◌ t String.[]) =
    if code t == b'.' then some (record { incident = ""; alert = "" }) else none
from_text (String.◌∷◌ t (String.◌∷◌ c s)) =
    let rest = from_text s in
    if code t == b'.'
    then some (record { incident = ""; alert = String.◌∷◌ c s })
    else with_first c rest

from_text-join :
    (incident alert : String)
    → from_text (join incident alert) ≡ some (record { incident = incident; alert = alert })
from_text-join String.[] String.[] = refl
from_text-join String.[] (String.◌∷◌ c s) = refl
from_text-join (String.◌∷◌ c incident) alert = ap (with_first c) (from_text-join incident alert)

join-not_empty : (incident alert : String) → join incident alert ≢ ""
join-not_empty String.[] alert e = absurd (cc)
join-not_empty (String.◌∷◌ c incident) alert e = absurd (cc)

join-ReadsBack : ReadsBack to_text from_text
join-ReadsBack cursor valid =
    (from_text-join cursor.incident cursor.alert, join-not_empty cursor.incident cursor.alert)

begun : decode_cursor to_text from_text "" ≡ ok beginning
unfolding decode_cursor
begun = refl

first-ids : All HasValidId first_events
unfolding valid_stream_id split_on is_uint64 all_digits decimal_from
first-ids = (refl, (refl, tt))

abbrev first_served : Served
first_served = serve_events (encode_cursor to_text from_text) sees_alerts beginning first_events

decode_cursor-serve_events_example :
    (id : String) × (encode_cursor to_text from_text first_served.cursor ≡ ok id)
    × (decode_cursor to_text from_text id ≡ ok first_served.cursor)
decode_cursor-serve_events_example =
    decode_cursor-serve_events to_text from_text join-ReadsBack sees_alerts "" beginning
      first_events begun first-ids
