-- ===== src/Priority/Levels.antt =====
-- What a decision of `Evaluate` warrants.
use signa.Prelude.{
  ◌≡◌, ◌⊎◌, true, false, arith, inl, inr, ◌&&◌, Bool-cases, sym, ◌∙◌, ◌≢◌, some, eq_iff,
  Option-cases, String, refl, ◌||◌, none, str_eq,
}
use signa.Prelude.Float.{Float, finite_non_negative, FloatLaws}
use signa.Prelude.Result.{ok, ok_inj, >>=-eq-ok}
use signa.Priority.{
  Policy, incident_age, location_age, grade, known_severity, known_confidence, decide, is_active,
  Input, none_level, is_stale, Decision, immediate_confidence, check_input, p3, p2, other,
  definitely_within, high_immediate_severity, Level, p1, possibly_within, evaluate,
  nearby_confidence, nearby_severity, Proximity,
}

active-not-terminal :
    (s : String) → is_active s ≡ true → (str_eq s "RESOLVED" || str_eq s "EXPIRED") ≡ false
active-not-terminal s h = elim (Bool-cases (str_eq s "OPEN")) [
  | inl e ↦ rw ((eq_iff s "OPEN").0 e) refl
  | inr other_status ↦ rw ((eq_iff s "RESOLVING").0 (rw other_status at h)) refl
]

module _ {F : Type 0} ⦃f : Float F⦄ where
  -- An incident that may be reported to the user at all: it and the location are fresh, it is active,
  -- and its severity and confidence are known.
  pub record Current (policy : Policy F) (input : Input F) : Type 0 where
    pub incident_fresh : is_stale (incident_age input) policy.incident_max_age ≡ false
    pub location_fresh : is_stale (location_age input) policy.location_max_age ≡ false
    pub active : is_active input.incident.status ≡ true
    pub severity_known : known_severity input.incident.severity ≡ true
    pub confidence_known : known_confidence input.incident.confidence ≡ true

  decide-cases :
      (policy : Policy F) (input : Input F) (d : Decision)
      → decide policy input ≡ ok d
      → (Current policy input × (d ≡ grade policy input)) ⊎ (d.level ≡ none_level)
  unfolding decide
  decide-cases policy input d e = ground arith

  -- What a decision for each level promises of the incident and the user's place.
  abbrev pub Warranted : Policy F → Input F → Level → Type 0
  Warranted policy input p1 =
      Current policy input
      × (definitely_within input.proximity policy.p1_radius_meters ≡ true)
      × (high_immediate_severity input.incident.severity ≡ true)
      × (immediate_confidence input.incident.confidence ≡ true)
  Warranted policy input p2 =
      Current policy input
      × (definitely_within input.proximity policy.p2_radius_meters ≡ true)
      × (nearby_severity input.incident.severity ≡ true)
      × (immediate_confidence input.incident.confidence ≡ true)
  Warranted policy input p3 =
      Current policy input × (possibly_within input.proximity policy.p2_radius_meters ≡ true)
  Warranted policy input none_level = Unit
  Warranted policy input (other s) = ⊥

  grade-Warranted :
      (policy : Policy F) (input : Input F)
      → Current policy input
      → Warranted policy input (grade policy input).level
  unfolding grade
  grade-Warranted policy input c =
      let p = input.proximity in
      let i = input.incident in
      elim (Bool-cases (
        definitely_within p policy.p1_radius_meters
        && high_immediate_severity i.severity
        && immediate_confidence i.confidence)) [
          | inl first ↦ rw first (ground arith)
          | inr other_levels ↦
              rw other_levels
                (elim (Bool-cases (
                  definitely_within p policy.p2_radius_meters
                  && nearby_severity i.severity
                  && nearby_confidence i.confidence)) [
                    | inl second ↦ rw second (ground arith)
                    | inr rest ↦
                        rw rest (elim (Bool-cases (possibly_within p policy.p2_radius_meters)) [
                          | inl third ↦ rw third (c, third)
                          | inr outside ↦ rw outside tt
                        ])
                  ])
        ]

  evaluate-ok :
      (policy : Policy F) (input : Input F) (d : Decision)
      → evaluate policy input ≡ ok d
      → (check_input policy input ≡ ok tt) × (decide policy input ≡ ok d)
  unfolding evaluate
  evaluate-ok policy input d e =
      let (_, a, b) = >>=-eq-ok (check_input policy input) (λ _. decide policy input) e in (a, b)

  -- A decision for P1, P2 or P3 is warranted: the incident is fresh, active and of known severity and
  -- confidence, the location is fresh, and the user is within the radius of the level (for P3, possibly)
  -- with the severity and confidence that the level asks for; no other level is ever given.
  pub evaluate-Warranted_level :
      (policy : Policy F) (input : Input F) {d : Decision}
      → evaluate policy input ≡ ok d
      → Warranted policy input d.level
  evaluate-Warranted_level policy input {d} e =
      elim (decide-cases policy input d (evaluate-ok policy input d e).1) [
        | inl (c, same) ↦ rw same (grade-Warranted policy input c)
        | inr unlisted ↦ rw unlisted tt
      ]

  decide-grade :
      (policy : Policy F) (input : Input F)
      → Current policy input
      → decide policy input ≡ ok (grade policy input)
  unfolding decide
  decide-grade policy input c =
      rw
        (
          c.incident_fresh,
          c.location_fresh,
          active-not-terminal input.incident.status c.active,
          c.active,
          c.severity_known,
          c.confidence_known,
        )
        refl

  unknown-not-definite :
      (p : Proximity F) (radius : F) → p.accuracy_meters ≡ none → definitely_within p radius ≡ false
  unfolding definitely_within
  unknown-not-definite p radius h = ground arith

  check_input-accuracy :
      (policy : Policy F) (input : Input F) (a : F)
      → check_input policy input ≡ ok tt
      → input.proximity.accuracy_meters ≡ some a
      → (finite_non_negative input.proximity.distance_meters ≡ true)
        × (finite_non_negative a ≡ true)
  unfolding check_input
  check_input-accuracy policy input a e h = ground arith

  definitely-possibly :
      FloatLaws F
      → (p : Proximity F) (radius a : F) → p.accuracy_meters ≡ some a
      → finite_non_negative p.distance_meters ≡ true
      → finite_non_negative a ≡ true
      → definitely_within p radius ≡ true
      → possibly_within p radius ≡ true
  unfolding definitely_within possibly_within
  definitely-possibly laws p radius a h fd fa w = ground (
    arith,
    laws.minus-le p.distance_meters a,
    laws.le-add p.distance_meters a,
    laws.le_trans (f.minus p.distance_meters a) p.distance_meters radius,
    laws.le_trans p.distance_meters (f.add p.distance_meters a) radius,
  )

  grade-listed :
      (policy : Policy F) (input : Input F)
      → possibly_within input.proximity policy.p2_radius_meters ≡ true
      → (grade policy input).level ≢ none_level
  unfolding grade
  grade-listed policy input w = ground arith

  -- Nothing near is dropped: for a current incident whose user is definitely within the P2 radius an
  -- evaluation that succeeds gives one of the levels P1, P2 and P3, whatever the severity and the
  -- confidence. (Over a `float64` that rounds as IEEE 754 asks.)
  pub evaluate_listed :
      FloatLaws F
      → (policy : Policy F) (input : Input F) {d : Decision} → evaluate policy input ≡ ok d
      → Current policy input
      → definitely_within input.proximity policy.p2_radius_meters ≡ true
      → d.level ≢ none_level
  evaluate_listed laws policy input {d} e c w =
      elim (Option-cases input.proximity.accuracy_meters) [
        | inl missing ↦
            absurd (cc (unknown-not-definite input.proximity policy.p2_radius_meters missing))
        | inr (a, known) ↦
            let (checked, decided) = evaluate-ok policy input d e in
            let (fd, fa) = check_input-accuracy policy input a checked known in
            let same : grade policy input ≡ d =
              ok_inj (sym (decide-grade policy input c) ∙ decided) in
            rw (← same) (
              grade-listed policy input
                (definitely-possibly laws input.proximity policy.p2_radius_meters a known fd fa w))
      ]
