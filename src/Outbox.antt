-- ===== src/Outbox.antt =====
-- internal/outbox/outbox.go: the publisher that moves events from the table `outbox_events` to Redis
-- streams. The rows stand in the order of the query, by `created_at` and `id`.
pub mod Publisher
pub mod Names
pub mod Publishing
pub mod Tests
use signa.Prelude.{
  ℕ, String, Bool, ◌&&◌, ◌||◌, Option, none, some, List, [], ◌∷◌, if◌then◌else◌, str_eq,
}

pub record Event : Type 0 where
  pub id : String
  pub event_type : String
  pub aggregate_type : String
  pub aggregate_id : String
  pub payload : String
  pub created_at : String

pub record StreamEvent : Type 0 where
  pub event_id : String
  pub event_name : String
  pub aggregate_type : String
  pub aggregate_id : String
  pub occurred_at : String
  pub payload : String

-- A row of `outbox_events`.
pub record Row : Type 0 where
  pub event : Event
  pub published : Bool
  pub retry_attempts : ℕ
  pub last_error : Option String

-- The table of names in `MapEvent`, which the query repeats as the types that it asks for.
abbrev pub event_names : List (String × String)
event_names =
    ("report.created", "report.created.v1")
    ∷ ("report.media_attached", "report.media_attached.v1")
    ∷ ("report.ai_processed", "report.ai_processed.v1")
    ∷ ("incident.created", "incident.created.v1")
    ∷ ("incident.report_attached", "incident.report_attached.v1")
    ∷ ("incident.confidence_changed", "incident.confidence_changed.v1")
    ∷ ("incident.severity_changed", "incident.severity_changed.v1")
    ∷ ("incident.status_changed", "incident.status_changed.v1")
    ∷ ("incident.resolved", "incident.resolved.v1")
    ∷ ("alert.created", "alert.created.v1")
    ∷ ("delivery.requested", "delivery.requested.v1")
    ∷ []

-- The types in the condition of the query.
abbrev pub queried_types : List String
queried_types =
    "report.created" ∷ "report.media_attached" ∷ "report.ai_processed" ∷ "incident.created"
    ∷ "incident.report_attached" ∷ "incident.confidence_changed" ∷ "incident.severity_changed"
    ∷ "incident.status_changed" ∷ "incident.resolved" ∷ "alert.created" ∷ "delivery.requested" ∷ []

unfoldable pub look_up : List (String × String) → String → Option String
look_up [] key = none
look_up ((k, v) ∷ entries) key = if str_eq k key then some v else look_up entries key

abbrev pub stream_event : Event → String → StreamEvent
stream_event event name = record {
  event_id = event.id;
  event_name = name;
  aggregate_type = event.aggregate_type;
  aggregate_id = event.aggregate_id;
  occurred_at = event.created_at;
  payload = event.payload;
}

abbrev pub with_name : Event → Option String → Option StreamEvent
with_name event none = none
with_name event (some name) = some (stream_event event name)

-- `MapEvent`; nothing stands for its error.
unfoldable pub map_event : Event → Option StreamEvent
map_event event = with_name event (look_up event_names event.event_type)

-- `eventName`, which keeps the type of an event that it does not know.
unfoldable pub event_name : Event → String
event_name event =
    if str_eq "report.created" event.event_type
    then "report.created.v1"
    else if str_eq "report.media_attached" event.event_type
    then "report.media_attached.v1"
    else if str_eq "report.ai_processed" event.event_type
    then "report.ai_processed.v1"
    else if str_eq "incident.created" event.event_type
    then "incident.created.v1"
    else if str_eq "incident.report_attached" event.event_type
    then "incident.report_attached.v1"
    else if str_eq "incident.confidence_changed" event.event_type
    then "incident.confidence_changed.v1"
    else if str_eq "incident.severity_changed" event.event_type
    then "incident.severity_changed.v1"
    else if str_eq "incident.status_changed" event.event_type
    then "incident.status_changed.v1"
    else if str_eq "incident.resolved" event.event_type
    then "incident.resolved.v1"
    else if str_eq "alert.created" event.event_type
    then "alert.created.v1"
    else if str_eq "delivery.requested" event.event_type
    then "delivery.requested.v1"
    else event.event_type

abbrev pub is_incident_type : String → Bool
is_incident_type t =
    str_eq t "incident.created"
    || str_eq t "incident.report_attached"
    || str_eq t "incident.confidence_changed"
    || str_eq t "incident.severity_changed"
    || str_eq t "incident.status_changed"
    || str_eq t "incident.resolved"

abbrev pub reroute : Bool → String → String → String
reroute applies target stream =
    if applies && str_eq stream "signa:report-events" then target else stream

-- The stream of `publishOne`, from the publisher's own stream.
unfoldable pub route : String → String → String
route event_type own =
    let media = reroute (str_eq event_type "report.media_attached") "signa:media-events" own in
    let incident = reroute (is_incident_type event_type) "signa:incident-events" media in
    let alert = reroute (str_eq event_type "alert.created") "signa:alert-events" incident in
    reroute (str_eq event_type "delivery.requested") "signa:delivery-events" alert
