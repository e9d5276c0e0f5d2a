-- ===== src/Alerts/Eligibility.antt =====
-- Which incidents internal/alerts/policy.go alerts.
-- What an alert of each type asks of the priority and the severity.
use signa.Alerts.{
  FreshnessState, fresh, stale, unknown, supported_status, supported_severity, supported_priority,
  supported_confidence, supported_freshness, unsupported_status, Decision, urgent_severity, nearby,
  AlertType, by_priority, immediate, EligibilityInput, eligible_confidence, actionable_severity,
  decide, validate_eligibility_input, is_fresh, evaluate_eligibility, is_terminal,
}
use signa.Prelude.{
  String, ◌⊎◌, str_eq, eq_iff, arith, not, ◌≡◌, refl, ◌↔◌, inl, inr, Bool, true, some, Bool-cases,
  sym, false,
}
use signa.Prelude.Result.{ok, ok_inj, >>=-eq-ok, fail_if-eq-ok}
use signa.Priority.{Level, p2, p1, p3, none_level}
use signa.Priority.Routes.{is_urgent}

abbrev pub Deserves : EligibilityInput → AlertType → Type 0
Deserves input immediate = (input.priority ≡ p1) × (urgent_severity input.severity ≡ true)
Deserves input nearby = (input.priority ≡ p2) × (actionable_severity input.severity ≡ true)

abbrev pub IsAlert : Decision → AlertType → Type 0
IsAlert d t = (d.is_eligible ≡ true) × (d.alert_type ≡ some t)

urgent_alert :
    (input : EligibilityInput) (t : AlertType)
    → IsAlert (by_priority p1 input) t ↔ (
        (eligible_confidence input.confidence ≡ true)
        × (t ≡ immediate)
        × (urgent_severity input.severity ≡ true))
unfolding by_priority
urgent_alert input t = elim (Bool-cases (urgent_severity input.severity)) [
  | inr mild ↦ rw mild (λ (h, _). absurd (cc), λ (_, _, h). absurd (cc))
  | inl severe ↦ rw severe (elim (Bool-cases (eligible_confidence input.confidence)) [
    | inr doubtful ↦ rw doubtful (λ (h, _). absurd (cc), λ (h, _, _). absurd (cc))
    | inl sure ↦ rw sure (λ (_, h). (refl, cc, refl), λ (_, h, _). (refl, cc))
  ])
]

nearby_alert :
    (input : EligibilityInput) (t : AlertType)
    → IsAlert (by_priority p2 input) t ↔ (
        (eligible_confidence input.confidence ≡ true)
        × (t ≡ nearby)
        × (actionable_severity input.severity ≡ true))
unfolding by_priority
nearby_alert input t = elim (Bool-cases (actionable_severity input.severity)) [
  | inr mild ↦ rw mild (λ (h, _). absurd (cc), λ (_, _, h). absurd (cc))
  | inl severe ↦ rw severe (elim (Bool-cases (eligible_confidence input.confidence)) [
    | inr doubtful ↦ rw doubtful (λ (h, _). absurd (cc), λ (h, _, _). absurd (cc))
    | inl sure ↦ rw sure (λ (_, h). (refl, cc, refl), λ (_, h, _). (refl, cc))
  ])
]

undeserved :
    (input : EligibilityInput) (t : AlertType)
    → Path Bool (is_urgent input.priority) false
    → ¬ Deserves input t
undeserved input immediate h (e, _) = cc (rw e at h)
undeserved input nearby h (e, _) = cc (rw e at h)

by_priority_alert :
    (level : Level) (input : EligibilityInput) (t : AlertType)
    → level ≡ input.priority
    → IsAlert (by_priority level input) t
      ↔ ((eligible_confidence input.confidence ≡ true) × Deserves input t)
unfolding by_priority
by_priority_alert p1 input immediate e = (
  λ h. let (c, _, u) = (urgent_alert input immediate).0 h in (c, (sym e, u)),
  λ (c, (_, u)). (urgent_alert input immediate).1 (c, refl, u),
)
by_priority_alert p1 input nearby e = (
  λ h. let (_, n, _) = (urgent_alert input nearby).0 h in absurd (cc),
  λ (_, (n, _)). absurd (cc),
)
by_priority_alert p2 input immediate e = (
  λ h. let (_, n, _) = (nearby_alert input immediate).0 h in absurd (cc),
  λ (_, (n, _)). absurd (cc),
)
by_priority_alert p2 input nearby e = (
  λ h. let (c, _, u) = (nearby_alert input nearby).0 h in (c, (sym e, u)),
  λ (c, (_, u)). (nearby_alert input nearby).1 (c, refl, u),
)
by_priority_alert p3 input t e =
    (λ (h, _). absurd (cc), λ (_, d). absurd (undeserved input t (rw (← e)) d))
by_priority_alert none_level input t e =
    (λ (h, _). absurd (cc), λ (_, d). absurd (undeserved input t (rw (← e)) d))
by_priority_alert (Level.other s) input t e =
    (λ (h, _). absurd (cc), λ (_, d). absurd (undeserved input t (rw (← e)) d))

-- An input that is evaluated: its tests, one by one.
pub evaluate_eligibility-IsAlert :
    (input : EligibilityInput) (t : AlertType) {d : Decision}
    → evaluate_eligibility input ≡ ok d
    → IsAlert d t ↔ (
        (is_terminal input.status ≡ false)
        × (is_fresh input.freshness ≡ true)
        × (eligible_confidence input.confidence ≡ true)
        × Deserves input t)
unfolding evaluate_eligibility
evaluate_eligibility-IsAlert input t {d} e =
    let (_, _, same) = >>=-eq-ok (validate_eligibility_input input) (λ _. ok (decide input)) e in
    rw (← ok_inj same) (elim (Bool-cases (is_terminal input.status)) [
      | inl over ↦ rw over (λ (h, _). absurd (cc), λ (h, _, _, _). absurd (cc))
      | inr running ↦ rw running (elim (Bool-cases (is_fresh input.freshness)) [
        | inr old ↦ rw old (λ (h, _). absurd (cc), λ (_, h, _, _). absurd (cc))
        | inl young ↦ rw young (
            let alert = by_priority_alert input.priority input t refl in
            (λ h. let (c, d) = alert.0 h in (refl, refl, c, d), λ (_, _, c, d). alert.1 (c, d)))
      ])
    ])

-- The incident is neither resolved nor expired.
abbrev pub IsActive : String → Type 0
IsActive status = (status ≡ "OPEN") ⊎ (status ≡ "RESOLVING")

active_lem :
    (status : String)
    → (is_terminal status ≡ false) × (supported_status status ≡ true) ↔ IsActive status
active_lem status = (
  λ (running, known). elim (Bool-cases (str_eq status "OPEN")) [
    | inl first ↦ inl ((eq_iff status "OPEN").0 first)
    | inr other_status ↦ inr ((eq_iff status "RESOLVING").0 (ground arith))
  ],
  λ active. elim active [ inl e ↦ rw e (refl, refl) | inr e ↦ rw e (refl, refl) ],
)

fresh_lem : (f : FreshnessState) → is_fresh f ≡ true → f ≡ fresh
fresh_lem fresh e = refl
fresh_lem stale e = absurd (cc)
fresh_lem unknown e = absurd (cc)
fresh_lem (FreshnessState.other s) e = absurd (cc)

-- What deserves an alert has a severity and a priority that the engine knows.
Deserves-supported :
    (input : EligibilityInput) (t : AlertType)
    → Deserves input t
    → (supported_severity input.severity ≡ true) × (supported_priority input.priority ≡ true)
Deserves-supported input immediate (level, severe) = (ground arith, rw level refl)
Deserves-supported input nearby (level, severe) = (ground arith, rw level refl)

validate-accepts :
    (input : EligibilityInput) (t : AlertType)
    → IsActive input.status
    → input.freshness ≡ fresh
    → eligible_confidence input.confidence ≡ true
    → Deserves input t
    → validate_eligibility_input input ≡ ok tt
unfolding validate_eligibility_input
validate-accepts input t active young sure deserved =
    let (running, known) = (active_lem input.status).1 active in
    let (severity, priority) = Deserves-supported input t deserved in
    let confidence : supported_confidence input.confidence ≡ true = ground arith in
    let freshness : supported_freshness input.freshness ≡ true = rw young refl in
    rw (known, freshness, confidence, severity, priority) refl

validate-supported :
    (input : EligibilityInput)
    → validate_eligibility_input input ≡ ok tt
    → supported_status input.status ≡ true
unfolding validate_eligibility_input
validate-supported input e =
    let (known, _) = fail_if-eq-ok (not (supported_status input.status)) unsupported_status _ e in
    ground arith

-- `EvaluateEligibility` succeeds with an alert of the type exactly if the incident is open or resolving and is fresh, its confidence is eligible, and its priority and severity deserve an alert of that type; every other input is refused or gets no such alert.
pub evaluate_eligibility_iff :
    (input : EligibilityInput) (t : AlertType)
    → ((d : Decision) × (evaluate_eligibility input ≡ ok d) × IsAlert d t) ↔ (
        IsActive input.status
        × (input.freshness ≡ fresh)
        × (eligible_confidence input.confidence ≡ true)
        × Deserves input t)
unfolding evaluate_eligibility
evaluate_eligibility_iff input t = (
  λ (d, e, alert).
      let (running, young, sure, deserved) = (evaluate_eligibility-IsAlert input t e).0 alert in
      let (_, valid, _) = >>=-eq-ok (validate_eligibility_input input) (λ _. ok (decide input)) e in
      (
        (active_lem input.status).0 (running, validate-supported input valid),
        fresh_lem input.freshness young,
        sure,
        deserved,
      ),
  λ (active, young, sure, deserved).
      let done : evaluate_eligibility input ≡ ok (decide input) =
        rw (validate-accepts input t active young sure deserved) refl in
      (
        decide input,
        done,
        (evaluate_eligibility-IsAlert input t done).1
            (((active_lem input.status).1 active).0, rw young refl, sure, deserved),
      ),
)
