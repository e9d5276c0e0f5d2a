-- ===== src/Incidents/Attaching.antt =====
-- internal/incidents/processor.go: the tables that the attachment of a report reads and writes, and its
-- statements.
use signa.Attachment.{Verdict, create, attach, AssessedCandidate, PolicyDecision, AttachmentError}
use signa.Prelude.{
  String, Bool, true, false, not, ◌&&◌, ◌||◌, Option, none, some, List, [], ◌∷◌, ◌++◌,
  if◌then◌else◌, str_eq, is_some,
}
use signa.Prelude.Int.{ltb_ℤ}
use signa.Prelude.Result.{Result, ok, err}
use signa.Prelude.Text.{concat}
use signa.Prelude.Time.{Time}

pub data AttachError : Type 0 where
  lookup_failed assessment_failed report_missing incident_missing : AttachError
  attachment_failed out_of_fuel commit_failed : AttachError

pub record Report (F : Type 0) : Type 0 where
  pub id : String
  pub incident_id : Option String
  pub observed_at : Option Time
  pub submitted_at : Time
  pub has_coordinates : Bool
  pub event_type : Option String

-- `firstTime`.
unfoldable pub first_time : Option Time → Time → Time
first_time none submitted = submitted
first_time (some observed) submitted = observed

pub record IncidentRow : Type 0 where
  pub event_type : Option String
  pub resolved_at : Option Time
  pub expires_at : Option Time
  pub last_signal_at : Option Time
  pub located : Bool

-- A row of `incident_reports`.
pub record Link (F : Type 0) : Type 0 where
  pub incident_id : String
  pub report_id : String
  pub similarity : Option F

-- A row of `incident_state_history`, with the verdict, score and margin of its metadata.
pub record Entry (F : Type 0) : Type 0 where
  pub incident_id : String
  pub verdict : Verdict
  pub reason : String
  pub metadata_verdict : Verdict
  pub metadata_score : Option F
  pub metadata_margin : Option F

pub record Event (F : Type 0) : Type 0 where
  pub event_type : String
  pub incident_id : String
  pub report_id : String
  pub score : Option F
  pub margin : Option F

-- Of a report, the incident that it has: `none` if there is no such report.
pub record Database (F : Type 0) : Type 0 where
  pub report : String → Option (Option String)
  pub incident : String → Option IncidentRow
  pub links : List (Link F)
  pub history : List (Entry F)
  pub outbox : List (Event F)

-- What one call of `LookupCandidates` finds, and the assessment of each candidate.
pub record Lookup (F : Type 0) : Type 0 where
  pub candidates : Option (List String)
  pub assess : String → Option (AssessedCandidate F)

pub record Policy (F : Type 0) : Type 0 where
  pub threshold : F
  pub margin : F

-- `UPDATE incidents SET last_signal_at = GREATEST(...)`.
abbrev pub later_signal : Option Time → Time → Time
later_signal none t = t
later_signal (some u) t = if ltb_ℤ u t then t else u

abbrev pub signalled : Time → Option IncidentRow → Option IncidentRow
signalled t none = none
signalled t (some row) =
    some (record row { last_signal_at = some (later_signal row.last_signal_at t) })

-- `resolvedAt == nil && (expiresAt == nil || expiresAt.After(now))`.
abbrev pub is_attachable : Time → IncidentRow → Bool
is_attachable now row =
    not (is_some row.resolved_at) && (elim row.expires_at [ none ↦ true | some t ↦ ltb_ℤ now t ])

abbrev pub event_name : Verdict → String
event_name create = "incident.created"
event_name attach = "incident.report_attached"

module _ {F : Type 0} where
  abbrev pub created : String → PolicyDecision F
  created reason = record {
    verdict = create;
    candidate_id = "";
    score = none;
    winner_margin = none;
    reason = reason;
  }

  abbrev pub decided :
      Result AttachmentError (PolicyDecision F) → Result AttachError (PolicyDecision F)
  decided (ok d) = ok d
  decided (err e) = err attachment_failed

  abbrev pub has_link : String → String → List (Link F) → Bool
  has_link incident report [] = false
  has_link incident report (l ∷ links) =
      (str_eq l.incident_id incident && str_eq l.report_id report) || has_link incident report links

  -- `ON CONFLICT (incident_id, report_id) DO NOTHING`.
  abbrev pub add_link : Link F → List (Link F) → List (Link F)
  add_link l links = if has_link l.incident_id l.report_id links then links else links ++ (l ∷ [])

  unfoldable pub attached : Report F → String → PolicyDecision F → Database F → Database F
  unfolding first_time
  attached r id d s = record s {
    incident = λ other.
        if str_eq other id
        then signalled (first_time r.observed_at r.submitted_at) (s.incident other)
        else s.incident other;
    links = add_link (record { incident_id = id; report_id = r.id; similarity = d.score }) s.links;
  }

  -- The new incident, under the id that the database gives it.
  unfoldable pub inserted : Report F → String → Database F → Database F
  unfolding first_time
  inserted r fresh s = record s {
    incident = λ other.
        if str_eq other fresh
        then some (record {
          event_type = r.event_type;
          resolved_at = none;
          expires_at = none;
          last_signal_at = some (first_time r.observed_at r.submitted_at);
          located = r.has_coordinates;
        })
        else s.incident other;
    links = s.links ++ (record { incident_id = fresh; report_id = r.id; similarity = none } ∷ []);
  }

  -- The three statements at the end of `apply`; `first` is the decision that the metadata was made of.
  unfoldable pub finish :
      Report F → String → PolicyDecision F → PolicyDecision F → Database F → Database F
  finish r id first d s = record s {
    report = λ other. if str_eq other r.id then some (some id) else s.report other;
    history =
        s.history
        ++ (record {
          incident_id = id;
          verdict = d.verdict;
          reason = d.reason;
          metadata_verdict = first.verdict;
          metadata_score = first.score;
          metadata_margin = first.winner_margin;
        }
            ∷ []);
    outbox =
        s.outbox
        ++ (record {
          event_type = event_name d.verdict;
          incident_id = id;
          report_id = r.id;
          score = d.score;
          margin = d.winner_margin;
        }
            ∷ []);
  }

  -- The write of a decision that stands.
  abbrev pub write_verdict :
      Verdict → Report F → String → PolicyDecision F → PolicyDecision F → Database F → Database F
  write_verdict attach r fresh first d s =
      finish r d.candidate_id first d (attached r d.candidate_id d s)
  write_verdict create r fresh first d s =
      if is_some r.incident_id then s else finish r fresh first d (inserted r fresh s)

  abbrev pub reworded : PolicyDecision F → PolicyDecision F
  reworded d = elim d.verdict [
    | create ↦ record d {
      reason = concat "re-evaluated after candidate became unattachable: " d.reason;
    }
    | attach ↦ d
  ]
