-- ===== src/Priority/Routes.antt =====
-- internal/priority/route_policy.go: route relevance, applied after the decision of `Evaluate`.
use signa.Prelude.{String, Bool, true, false, not, ◌&&◌, List, [], ◌∷◌, ◌++◌, if◌then◌else◌}
use signa.Prelude.Float.{Float}
use signa.Prelude.Result.{Result, ok, err, ◌>>=◌, ◌>>◌}
use signa.Priority.{
  unsupported_relevance, Incident, Policy, p1, p3, incident_age, location_age, p2,
  nearby_confidence, is_disputed, known_severity, evaluate, Error, known_confidence,
  nearby_severity, Level, is_active, Input, none_level, is_stale, Decision,
}

pub data RouteRelevance : Type 0 where
  unknown not_relevant relevant : RouteRelevance
  other : String → RouteRelevance

abbrev pub add_reasons : Decision → List String → Decision
add_reasons d reasons = record d { reasons = d.reasons ++ reasons }

abbrev pub is_urgent : Level → Bool
is_urgent p1 = true
is_urgent p2 = true
is_urgent _ = false

abbrev pub is_none : Level → Bool
is_none none_level = true
is_none _ = false

abbrev pub promotable : Incident → Bool
promotable i =
    not (is_disputed i.confidence) && nearby_severity i.severity && nearby_confidence i.confidence

abbrev pub check_relevance : RouteRelevance → Result Error (Unit {0})
check_relevance (other relevance) = err (unsupported_relevance relevance)
check_relevance _ = ok tt

module _ {F : Type 0} ⦃f : Float F⦄ where
  unfoldable pub route_eligible : Policy F → Input F → Bool
  route_eligible policy input =
      if is_stale (incident_age input) policy.incident_max_age
      then false
      else if is_stale (location_age input) policy.location_max_age
      then false
      else if not (is_active input.incident.status)
      then false
      else known_severity input.incident.severity && known_confidence input.incident.confidence

  -- `EvaluateRoute` after the `switch`, with the reason `route_relevant` appended.
  unfoldable pub promote : Policy F → Input F → Decision → Decision
  promote policy input base =
      if is_urgent base.level
      then base
      else if not (route_eligible policy input)
      then base
      else if promotable input.incident
      then record (add_reasons base ("route_promoted_to_p2" ∷ [])) { level = p2 }
      else if is_none base.level
      then record (add_reasons base (
          "route_relevance_p3"
          ∷ (if is_disputed input.incident.confidence then "confidence_disputed" ∷ [] else []))) {
            level = p3;
          }
      else base

  unfoldable pub apply_relevance :
      Policy F → Input F → RouteRelevance → Decision → Result Error Decision
  unfolding promote
  apply_relevance policy input unknown base = ok (add_reasons base ("route_relevance_unknown" ∷ []))
  apply_relevance policy input not_relevant base = ok (add_reasons base ("route_not_relevant" ∷ []))
  apply_relevance policy input relevant base =
      ok (promote policy input (add_reasons base ("route_relevant" ∷ [])))
  apply_relevance policy input (other relevance) base = err (unsupported_relevance relevance)

  -- The first test of the source refuses an unsupported relevance before anything else is checked.
  unfoldable pub evaluate_route : Policy F → Input F → RouteRelevance → Result Error Decision
  unfolding apply_relevance
  evaluate_route policy input relevance =
      check_relevance relevance
      >> (evaluate policy input >>= apply_relevance policy input relevance)
