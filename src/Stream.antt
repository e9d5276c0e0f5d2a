-- ===== src/Stream.antt =====
-- Messages of a Redis stream: internal/ai/extraction/event.go, and the `stringField` that
-- internal/delivery/delivery.go repeats. Decoding JSON and parsing UUIDs are parameters.
pub mod Merge
pub mod Tests
-- A value of `map[string]any`, by the cases of the type switch; bytes stand as the text they spell.
use signa.Prelude.{String, Bool, not, Option, none, some, List, [], ◌∷◌, if◌then◌else◌, str_eq}
use signa.Prelude.Result.{Result, ok, err, fail_if, ◌>>=◌, ◌>>◌}

pub data FieldValue : Type 0 where
  text bytes : String → FieldValue
  number : FieldValue

abbrev pub Fields : Type 0
Fields = List (String × FieldValue)

pub record StreamMessage : Type 0 where
  pub id : String
  pub values : Fields

pub data FieldError : Type 0 where
  missing is_empty_field bad_type : String → FieldError

unfoldable pub lookup_field : Fields → String → Option FieldValue
lookup_field [] name = none
lookup_field ((k, v) ∷ fields) name = if str_eq k name then some v else lookup_field fields name

abbrev pub field_text : String → Option FieldValue → Result FieldError String
field_text name none = err (missing name)
field_text name (some (text value)) =
    if str_eq value "" then err (is_empty_field name) else ok value
field_text name (some (bytes value)) =
    if str_eq value "" then err (is_empty_field name) else ok value
field_text name (some number) = err (bad_type name)

unfoldable pub string_field : Fields → String → Result FieldError String
unfolding lookup_field
string_field fields name = field_text name (lookup_field fields name)

pub data EventError : Type 0 where
  field : FieldError → EventError
  unexpected_aggregate unsupported_event : String → EventError
  undecodable invalid_report_id : EventError

pub record ReportEvent : Type 0 where
  pub id : String
  pub name : String
  pub report_id : String

pub record ReportCreatedEvent : Type 0 where
  pub event_id : String
  pub report_id : String

abbrev pub read : Fields → String → Result EventError String
read fields name = elim (string_field fields name) [ ok value ↦ ok value | err e ↦ err (field e) ]

abbrev pub or_error {ℓ} : {A : Type ℓ} → Option A → EventError → Result EventError A
or_error none e = err e
or_error (some a) e = ok a

-- `decode` is `json.Unmarshal` of the payload into the body, and `is_uuid` is `uuid.Parse`.
module _ (decode : String → Option String) (is_uuid : String → Bool) where
  unfoldable pub parse_report_event : Fields → Result EventError ReportEvent
  unfolding string_field
  parse_report_event fields = do
    event_id ← read fields "event_id"
    event_name ← read fields "event_name"
    aggregate_type ← read fields "aggregate_type"
    fail_if (not (str_eq aggregate_type "report")) (unexpected_aggregate aggregate_type)
    payload ← read fields "payload"
    report_id ← or_error (decode payload) undecodable
    fail_if (not (is_uuid report_id)) invalid_report_id
    ok (record { id = event_id; name = event_name; report_id = report_id })

  unfoldable pub parse_report_created : Fields → Result EventError ReportCreatedEvent
  unfolding parse_report_event
  parse_report_created fields = do
    event ← parse_report_event fields
    fail_if (not (str_eq event.name "report.created.v1")) (unsupported_event event.name)
    ok (record { event_id = event.id; report_id = event.report_id })
