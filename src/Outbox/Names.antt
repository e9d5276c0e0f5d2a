-- ===== src/Outbox/Names.antt =====
-- The names of the events of internal/outbox/outbox.go, which three places of the code list.
-- The looked up name, if there is one, is the other.
use signa.Outbox.{
  Event, stream_event, look_up, queried_types, map_event, event_names, with_name, event_name,
}
use signa.Prelude.{
  String, ◌≡◌, refl, ◌⊎◌, inl, inr, Bool, true, false, ◌||◌, Option, none, some, List, [], ◌∷◌,
  if◌then◌else◌, str_eq, is_some, sym,
}
use signa.Prelude.Text.{contains}

abbrev Agrees : Option String → String → Type 0
Agrees o name = (o ≡ none) ⊎ (o ≡ some name)

both_cases :
    (b : Bool) (name : String) (o : Option String) (other : String)
    → Agrees o other
    → Agrees (if b then some name else o) (if b then name else other)
both_cases true name o other h = inr refl
both_cases false name o other h = h

or_cases :
    (b c : Bool) (name : String) (o : Option String)
    → is_some o ≡ c
    → is_some (if b then some name else o) ≡ (b || c)
or_cases true c name o h = refl
or_cases false c name o h = h

event_name-Agrees :
    (event : Event) → Agrees (look_up event_names event.event_type) (event_name event)
unfolding look_up event_name
event_name-Agrees event =
    let t = event.event_type in
    both_cases (str_eq "report.created" t) _ _ _ (
      both_cases (str_eq "report.media_attached" t) _ _ _ (
        both_cases (str_eq "report.ai_processed" t) _ _ _ (
          both_cases (str_eq "incident.created" t) _ _ _ (
            both_cases (str_eq "incident.report_attached" t) _ _ _ (
              both_cases (str_eq "incident.confidence_changed" t) _ _ _ (
                both_cases (str_eq "incident.severity_changed" t) _ _ _ (
                  both_cases (str_eq "incident.status_changed" t) _ _ _ (
                    both_cases (str_eq "incident.resolved" t) _ _ _ (
                      both_cases (str_eq "alert.created" t) _ _ _
                        (both_cases (str_eq "delivery.requested" t) _ _ _ (inl refl)))))))))))

-- A list of names that goes with a list of types.
abbrev types_of : List (String × String) → List String
types_of [] = []
types_of ((k, v) ∷ entries) = k ∷ types_of entries

look_up-types_of :
    (entries : List (String × String)) (t : String)
    → is_some (look_up entries t) ≡ contains (types_of entries) t
unfolding look_up contains
look_up-types_of [] t = refl
look_up-types_of ((k, v) ∷ entries) t =
    or_cases (str_eq k t) _ v (look_up entries t) (look_up-types_of entries t)

with_name-queried :
    (event : Event) (o : Option String) (queried : Bool)
    → Agrees o (event_name event)
    → is_some o ≡ queried
    → with_name event o ≡ (if queried then some (stream_event event (event_name event)) else none)
with_name-queried event none queried h e = rw (sym e) refl
with_name-queried event (some name) queried (inl h) e = absurd (cc)
with_name-queried event (some name) queried (inr h) e =
    let same : name ≡ event_name event = cc in rw (sym e, same) refl

-- The query claims exactly the types of event that can be mapped, so no claimed event fails for its type; and the name that a mapped event gets is the one that the log calls it.
pub map_event_queried :
    (event : Event)
    → map_event event ≡ (
        if contains queried_types event.event_type
        then some (stream_event event (event_name event))
        else none)
unfolding map_event
map_event_queried event =
    with_name-queried event (look_up event_names event.event_type) _ (event_name-Agrees event)
      (look_up-types_of event_names event.event_type)
