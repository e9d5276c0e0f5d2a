-- ===== src/Config/Agreement.antt =====
-- The settings that internal/config accepts, against the policies that use them.
use signa.Lifecycle
use signa.Confidence
use signa.Priority
use signa.Config.{
  Error, Env, is_positive, not_increasing, required, invalid, required_int_range, in_range,
  required_duration, accept, radii_not_increasing, is_above_zero, is_finite, required_float,
}
use signa.Config.Policies.{
  IncidentLifecyclePolicy, load_incident_lifecycle_policy, load_confidence_policy,
  load_priority_policy, max_int,
}
use signa.Prelude.{
  String, ◌≡◌, subst, inl, inr, Bool, true, Option, none, some, arith, if◌then◌else◌, str_eq,
  Bool-cases, refl, false, ◌||◌,
}
use signa.Prelude.Float.{Float, finite_positive, FloatLaws}
use signa.Prelude.Int.{ℤ, pos, leb_ℤ}
use signa.Prelude.Result.{ok, err, ok_inj, >>=-eq-ok, fail_if-eq-ok}
use signa.Prelude.Time.{Duration}

accept-fits :
    {A : Type 0} (e : Error) (fits : A → Bool) (o : Option A) (a : A)
    → accept e fits o ≡ ok a
    → fits a ≡ true
accept-fits e fits none a h = absurd (cc)
accept-fits e fits (some b) a h = elim (Bool-cases (fits b)) [
  | inl fit ↦ let same : b ≡ a = ok_inj (rw fit at h) in subst (λ x. fits x ≡ true) same fit
  | inr unfit ↦ let bad = rw unfit at h in absurd (cc)
]

-- A setting that must be there.
required-fits :
    {A : Type 0} (value name : String) (e : Error) (fits : A → Bool) (o : Option A) (a : A)
    → (if str_eq value "" then err (required name) else accept e fits o) ≡ ok a
    → fits a ≡ true
required-fits value name e fits o a h = elim (Bool-cases (str_eq value "")) [
  | inl missing_value ↦ let bad = rw missing_value at h in absurd (cc)
  | inr given ↦ accept-fits e fits o a (rw given at h)
]

-- A setting with a fallback that fits.
fallback-fits :
    {A : Type 0} (value : String) (fallback : A) (e : Error) (fits : A → Bool) (o : Option A)
    (a : A)
    → fits fallback ≡ true
    → (if str_eq value "" then ok fallback else accept e fits o) ≡ ok a
    → fits a ≡ true
fallback-fits value fallback e fits o a fit h = elim (Bool-cases (str_eq value "")) [
  | inl missing_value ↦
      let same : fallback ≡ a = ok_inj (rw missing_value at h) in
      subst (λ x. fits x ≡ true) same fit
  | inr given ↦ accept-fits e fits o a (rw given at h)
]

module _ {F : Type 0} (env : Env F) where
  required_duration-is_positive :
      (name : String) (d : Duration) → required_duration env name ≡ ok d → is_positive d ≡ true
  unfolding required_duration
  required_duration-is_positive name d h =
      required-fits (env.getenv name) name (invalid name) is_positive
        (env.parse_duration (env.getenv name)) d h

  required_int_range-in_range :
      (name : String) (low high n : ℤ)
      → required_int_range env name low high ≡ ok n
      → in_range low high n ≡ true
  unfolding required_int_range
  required_int_range-in_range name low high n h =
      required-fits (env.getenv name) name (invalid name) (in_range low high)
        (env.atoi (env.getenv name)) n h

  abbrev pub lifecycle_policy : IncidentLifecyclePolicy → Lifecycle.Policy
  lifecycle_policy p = record {
    resolving_after = p.resolving_after;
    resolved_after = p.resolved_after;
    expired_after = p.expired_after;
  }

  -- A lifecycle policy that is read from the environment is one that the lifecycle engine accepts, so that the worker's lifecycle processor does not refuse it.
  pub load_incident_lifecycle_policy-validate :
      (p : IncidentLifecyclePolicy)
      → load_incident_lifecycle_policy env ≡ ok p
      → Lifecycle.validate (lifecycle_policy p) ≡ ok tt
  unfolding load_incident_lifecycle_policy Lifecycle.validate
  load_incident_lifecycle_policy-validate p h =
      let (resolving, e1, h1) =
        >>=-eq-ok (required_duration env "SIGNA_INCIDENT_RESOLVING_AFTER") _ h in
      let (resolved, e2, h2) =
        >>=-eq-ok (required_duration env "SIGNA_INCIDENT_RESOLVED_AFTER") _ h1 in
      let (expired, e3, h3) =
        >>=-eq-ok (required_duration env "SIGNA_INCIDENT_EXPIRED_AFTER") _ h2 in
      let (sweep, e4, h4) =
        >>=-eq-ok (required_duration env "SIGNA_INCIDENT_LIFECYCLE_SWEEP_INTERVAL") _ h3 in
      let (increasing, last) =
        fail_if-eq-ok (leb_ℤ resolved resolving || leb_ℤ expired resolved) not_increasing _ h4 in
      let above1 = required_duration-is_positive "SIGNA_INCIDENT_RESOLVING_AFTER" resolving e1 in
      let above2 = required_duration-is_positive "SIGNA_INCIDENT_RESOLVED_AFTER" resolved e2 in
      let above3 = required_duration-is_positive "SIGNA_INCIDENT_EXPIRED_AFTER" expired e3 in
      subst (λ (q : IncidentLifecyclePolicy). Lifecycle.validate (lifecycle_policy q) ≡ ok tt)
        (ok_inj last) (ground arith)

  -- A confidence policy that is read from the environment is one that the confidence engine accepts.
  pub load_confidence_policy-validate :
      (p : Confidence.Policy) → load_confidence_policy env ≡ ok p → Confidence.validate p ≡ ok tt
  unfolding load_confidence_policy Confidence.validate
  load_confidence_policy-validate p h =
      let (emerging, e1, h1) =
        >>=-eq-ok (required_int_range env "SIGNA_CONFIDENCE_EMERGING_MIN_EVIDENCE" (pos 1) max_int)
          _ h in
      let (corroborated, e2, h2) =
        >>=-eq-ok
          (required_int_range env "SIGNA_CONFIDENCE_CORROBORATED_MIN_EVIDENCE" (pos 1) max_int) _
          h1 in
      let (high, e3, h3) =
        >>=-eq-ok (required_int_range env "SIGNA_CONFIDENCE_HIGH_MIN_EVIDENCE" (pos 1) max_int) _
          h2 in
      let (increasing, last) =
        fail_if-eq-ok (leb_ℤ corroborated emerging || leb_ℤ high corroborated) not_increasing _
          h3 in
      let range1 =
        required_int_range-in_range "SIGNA_CONFIDENCE_EMERGING_MIN_EVIDENCE" (pos 1) max_int
          emerging e1 in
      let range2 =
        required_int_range-in_range "SIGNA_CONFIDENCE_CORROBORATED_MIN_EVIDENCE" (pos 1) max_int
          corroborated e2 in
      let range3 =
        required_int_range-in_range "SIGNA_CONFIDENCE_HIGH_MIN_EVIDENCE" (pos 1) max_int high e3 in
      subst (λ (q : Confidence.Policy). Confidence.validate q ≡ ok tt) (ok_inj last) (ground arith)

  module _ ⦃f : Float F⦄ ⦃laws : FloatLaws F⦄ where
    required_float-is_finite :
        (name : String) (valid : F → Bool) (v : F)
        → required_float env name valid ≡ ok v
        → is_finite env valid v ≡ true
    unfolding required_float
    required_float-is_finite name valid v h =
        required-fits (env.getenv name) name (invalid name) (is_finite env valid)
          (env.parse_float (env.getenv name)) v h

    is_finite-finite_positive :
        (v : F) → is_finite env (is_above_zero env) v ≡ true → finite_positive v ≡ true
    is_finite-finite_positive v h =
        let above : f.lt f.nought v ≡ true = ground arith in
        let at_least = laws.lt-le f.nought v above in ground arith

    -- A priority policy that is read from the environment is one that the priority engine accepts, where a float that is larger than zero is at least zero.
    pub load_priority_policy-validate :
        (p : Priority.Policy F) → load_priority_policy env ≡ ok p → Priority.validate p ≡ ok tt
    unfolding load_priority_policy Priority.validate
    load_priority_policy-validate p h =
        let (p1, e1, h1) =
          >>=-eq-ok (required_float env "SIGNA_PRIORITY_P1_RADIUS_METERS" (is_above_zero env)) _
            h in
        let (p2, e2, h2) =
          >>=-eq-ok (required_float env "SIGNA_PRIORITY_P2_RADIUS_METERS" (is_above_zero env)) _
            h1 in
        let (location, e3, h3) =
          >>=-eq-ok (required_duration env "SIGNA_PRIORITY_LOCATION_MAX_AGE") _ h2 in
        let (incident, e4, h4) =
          >>=-eq-ok (required_duration env "SIGNA_PRIORITY_INCIDENT_MAX_AGE") _ h3 in
        let (increasing, last) = fail_if-eq-ok (f.le p2 p1) radii_not_increasing _ h4 in
        let good1 =
          is_finite-finite_positive p1 (
            required_float-is_finite "SIGNA_PRIORITY_P1_RADIUS_METERS" (is_above_zero env) p1 e1) in
        let good2 =
          is_finite-finite_positive p2 (
            required_float-is_finite "SIGNA_PRIORITY_P2_RADIUS_METERS" (is_above_zero env) p2 e2) in
        let above1 = required_duration-is_positive "SIGNA_PRIORITY_LOCATION_MAX_AGE" location e3 in
        let above2 = required_duration-is_positive "SIGNA_PRIORITY_INCIDENT_MAX_AGE" incident e4 in
        let durations : (leb_ℤ location (pos 0) || leb_ℤ incident (pos 0)) ≡ false = ground arith in
        subst (λ (q : Priority.Policy F). Priority.validate q ≡ ok tt) (ok_inj last)
          (rw (good1, good2, increasing, durations) refl)
