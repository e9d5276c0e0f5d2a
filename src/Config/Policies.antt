-- ===== src/Config/Policies.antt =====
-- The policies that internal/config/config.go, retention.go and routing.go read.
use signa.Confidence
use signa.Priority
use signa.Retention
use signa.Config.{
  Error, Env, bad_durations, radii_not_increasing, is_positive, not_increasing, duration_from_env,
  required_float, window_too_short, bad_version, required_duration, required_positive_float,
  invalid, is_share, ttl_too_long, bad_retention, is_above_zero, bad_limit, targeting_incomplete,
  required_int_range, accept, seconds, bad_radius, required, in_range, is_finite, required_env,
}
use signa.Prelude.{
  ℕ, ◌+◌, String, not, ◌||◌, Option, none, some, List, [], ◌∷◌, ◌==◌, if◌then◌else◌, str_eq,
}
use signa.Prelude.Float.{Float}
use signa.Prelude.Int.{ℤ, pos, pos_part, ltb_ℤ, leb_ℤ}
use signa.Prelude.Result.{Result, ok, err, fail_if, ◌>>=◌, ◌>>◌}
use signa.Prelude.Text.{trim_text, is_blank}
use signa.Prelude.Time.{Duration, max_duration}

pub record IncidentLifecyclePolicy : Type 0 where
  pub resolving_after : Duration
  pub resolved_after : Duration
  pub expired_after : Duration
  pub sweep_interval : Duration

pub record IncidentPolicy (F : Type 0) : Type 0 where
  pub candidate_radius_meters : F
  pub candidate_time_window : Duration
  pub candidate_limit : ℤ
  pub similarity_threshold : F
  pub similarity_winner_margin : F

pub record VerificationTargetingPolicy (F : Type 0) : Type 0 where
  pub version : String
  pub radius_meters : F
  pub location_max_age : Duration
  pub max_candidates : ℤ
  pub request_lifetime : Duration

pub record PublicIncidentGeometryPolicy (F : Type 0) : Type 0 where
  pub version : String
  pub grid_meters : F
  pub min_radius_meters : F
  pub simplify_meters : F

pub record WebPushConfig : Type 0 where
  pub subscriber : String
  pub vapid_public_key : String
  pub vapid_private_key : String
  pub ttl : Duration
  pub timeout : Duration

pub record RoutingConfig : Type 0 where
  pub provider : String
  pub base_url : String
  pub timeout : Duration

-- The largest `int`.
abbrev pub max_int : ℤ
max_int = max_duration

abbrev pub targeting_names : List String
targeting_names =
    "SIGNA_VERIFICATION_TARGETING_RADIUS_METERS" ∷ "SIGNA_VERIFICATION_TARGETING_LOCATION_MAX_AGE"
    ∷ "SIGNA_VERIFICATION_TARGETING_MAX_CANDIDATES"
    ∷ "SIGNA_VERIFICATION_TARGETING_REQUEST_LIFETIME" ∷ []

abbrev pub targeting_version : String
targeting_version = "signa.verification-targeting.v1"

abbrev pub geometry_version : String
geometry_version = "signa.public-incident-geometry.v1"

module _ {F : Type 0} (env : Env F) where
  -- `LoadIncidentLifecyclePolicy`.
  unfoldable pub load_incident_lifecycle_policy : Result Error IncidentLifecyclePolicy
  unfolding required_duration
  load_incident_lifecycle_policy = do
    resolving ← required_duration env "SIGNA_INCIDENT_RESOLVING_AFTER"
    resolved ← required_duration env "SIGNA_INCIDENT_RESOLVED_AFTER"
    expired ← required_duration env "SIGNA_INCIDENT_EXPIRED_AFTER"
    sweep ← required_duration env "SIGNA_INCIDENT_LIFECYCLE_SWEEP_INTERVAL"
    fail_if (leb_ℤ resolved resolving || leb_ℤ expired resolved) not_increasing
    ok (record {
      resolving_after = resolving;
      resolved_after = resolved;
      expired_after = expired;
      sweep_interval = sweep;
    })

  -- `LoadConfidencePolicy`; the policy of internal/incidents/confidence has the same three fields.
  unfoldable pub load_confidence_policy : Result Error Confidence.Policy
  unfolding required_int_range
  load_confidence_policy = do
    emerging ← required_int_range env "SIGNA_CONFIDENCE_EMERGING_MIN_EVIDENCE" (pos 1) max_int
    corroborated ←
        required_int_range env "SIGNA_CONFIDENCE_CORROBORATED_MIN_EVIDENCE" (pos 1) max_int
    high ← required_int_range env "SIGNA_CONFIDENCE_HIGH_MIN_EVIDENCE" (pos 1) max_int
    fail_if (leb_ℤ corroborated emerging || leb_ℤ high corroborated) not_increasing
    ok (record { emerging_min = emerging; corroborated_min = corroborated; high_min = high })

  -- `LoadCoordinationSyncWindow`.
  unfoldable pub load_coordination_sync_window : Result Error Duration
  load_coordination_sync_window =
      let value = env.getenv "SIGNA_COORDINATION_SYNC_WINDOW" in
      if str_eq value ""
      then err (required "SIGNA_COORDINATION_SYNC_WINDOW")
      else accept window_too_short (λ d. leb_ℤ (seconds 1) d) (env.parse_duration value)

  -- `LoadWebPushConfig`.
  unfoldable pub load_web_push_config : Result Error WebPushConfig
  unfolding duration_from_env trim_text
  load_web_push_config = do
    subscriber ← required_env env "SIGNA_WEB_PUSH_VAPID_SUBJECT"
    public_key ← required_env env "SIGNA_WEB_PUSH_VAPID_PUBLIC_KEY"
    private_key ← required_env env "SIGNA_WEB_PUSH_VAPID_PRIVATE_KEY"
    ttl ← duration_from_env env "SIGNA_WEB_PUSH_TTL" (seconds 300)
    fail_if (ltb_ℤ (seconds 2_419_200) ttl) ttl_too_long
    timeout ← duration_from_env env "SIGNA_WEB_PUSH_TIMEOUT" (seconds 10)
    ok (record {
      subscriber = subscriber;
      vapid_public_key = public_key;
      vapid_private_key = private_key;
      ttl = ttl;
      timeout = timeout;
    })

  -- `requiredRoutingDuration` of routing.go.
  abbrev pub required_routing_duration : String → Result Error Duration
  required_routing_duration name =
      let value = trim_text (env.getenv name) in
      if str_eq value ""
      then err (required name)
      else accept (invalid name) is_positive (env.parse_duration value)

  -- `LoadRoutingConfig`.
  unfoldable pub load_routing_config : Result Error RoutingConfig
  unfolding trim_text
  load_routing_config = do
    let provider = trim_text (env.getenv "SIGNA_ROUTING_PROVIDER")
    let base_url = trim_text (env.getenv "SIGNA_ROUTING_BASE_URL")
    fail_if (str_eq base_url "") (required "SIGNA_ROUTING_BASE_URL")
    timeout ← required_routing_duration "SIGNA_ROUTING_TIMEOUT"
    ok (record {
      provider = if str_eq provider "" then "osrm" else provider;
      base_url = base_url;
      timeout = timeout;
    })

  -- The number of names that have a value.
  unfoldable pub configured : List String → ℕ
  unfolding is_blank
  configured [] = 0
  configured (name ∷ names) = (if is_blank (env.getenv name) then 0 else 1) + configured names

  abbrev pub checked_retention : Retention.Policy → Result Error Retention.Policy
  checked_retention p = if Retention.is_valid_policy p then ok p else err bad_retention

  -- `LoadRetentionPolicy`; the batch size is in its range and so a natural number.
  unfoldable pub load_retention_policy : Result Error Retention.Policy
  unfolding required_duration required_int_range Retention.is_valid_policy
  load_retention_policy = do
    report ← required_duration env "SIGNA_RETENTION_REPORT_EXACT_LOCATION"
    user ← required_duration env "SIGNA_RETENTION_USER_LOCATION"
    media ← required_duration env "SIGNA_RETENTION_MEDIA_METADATA"
    logs ← required_duration env "SIGNA_RETENTION_OPERATIONAL_LOGS"
    sessions ← required_duration env "SIGNA_RETENTION_AUTH_SESSIONS"
    sweep ← required_duration env "SIGNA_RETENTION_SWEEP_INTERVAL"
    batch ← required_int_range env "SIGNA_RETENTION_BATCH_SIZE" (pos 1) (pos 10_000)
    checked_retention (record {
      report_exact_location = report;
      user_location = user;
      media_metadata = media;
      operational_logs = logs;
      auth_sessions = sessions;
      sweep_interval = sweep;
      batch_size = pos_part batch;
    })

  module _ ⦃f : Float F⦄ where
    -- `LoadPriorityPolicy`.
    unfoldable pub load_priority_policy : Result Error (Priority.Policy F)
    unfolding required_float required_duration
    load_priority_policy = do
      p1 ← required_float env "SIGNA_PRIORITY_P1_RADIUS_METERS" (is_above_zero env)
      p2 ← required_float env "SIGNA_PRIORITY_P2_RADIUS_METERS" (is_above_zero env)
      location ← required_duration env "SIGNA_PRIORITY_LOCATION_MAX_AGE"
      incident ← required_duration env "SIGNA_PRIORITY_INCIDENT_MAX_AGE"
      fail_if (f.le p2 p1) radii_not_increasing
      ok (record {
        p1_radius_meters = p1;
        p2_radius_meters = p2;
        location_max_age = location;
        incident_max_age = incident;
      })

    -- `LoadIncidentPolicy`.
    unfoldable pub load_incident_policy : Result Error (IncidentPolicy F)
    unfolding required_float required_duration required_int_range
    load_incident_policy = do
      radius ← required_float env "SIGNA_INCIDENT_CANDIDATE_RADIUS_METERS" (is_above_zero env)
      window ← required_duration env "SIGNA_INCIDENT_CANDIDATE_TIME_WINDOW"
      limit ← required_int_range env "SIGNA_INCIDENT_CANDIDATE_LIMIT" (pos 1) (pos 100)
      threshold ← required_float env "SIGNA_INCIDENT_SIMILARITY_THRESHOLD" (is_share env)
      margin ← required_float env "SIGNA_INCIDENT_SIMILARITY_WINNER_MARGIN" (is_share env)
      ok (record {
        candidate_radius_meters = radius;
        candidate_time_window = window;
        candidate_limit = limit;
        similarity_threshold = threshold;
        similarity_winner_margin = margin;
      })

    -- `LoadPublicIncidentGeometryPolicy`.
    unfoldable pub load_public_incident_geometry_policy :
        Result Error (PublicIncidentGeometryPolicy F)
    unfolding required_positive_float
    load_public_incident_geometry_policy = do
      grid ← required_positive_float env "SIGNA_PUBLIC_INCIDENT_GRID_METERS"
      radius ← required_positive_float env "SIGNA_PUBLIC_INCIDENT_MIN_RADIUS_METERS"
      simplify ← required_positive_float env "SIGNA_PUBLIC_INCIDENT_SIMPLIFY_METERS"
      ok (record {
        version = geometry_version;
        grid_meters = grid;
        min_radius_meters = radius;
        simplify_meters = simplify;
      })

    -- `VerificationTargetingPolicy.Validate`.
    unfoldable pub validate_targeting : VerificationTargetingPolicy F → Result Error (Unit {0})
    validate_targeting p = do
      fail_if (not (str_eq p.version targeting_version)) bad_version
      fail_if (not (is_finite env (is_above_zero env) p.radius_meters)) bad_radius
      fail_if (not (is_positive p.location_max_age) || not (is_positive p.request_lifetime))
          bad_durations
      fail_if (not (in_range (pos 1) (pos 1000) p.max_candidates)) bad_limit

    abbrev pub read_targeting : Result Error (Option (VerificationTargetingPolicy F))
    read_targeting = do
      radius ← required_positive_float env "SIGNA_VERIFICATION_TARGETING_RADIUS_METERS"
      age ← required_duration env "SIGNA_VERIFICATION_TARGETING_LOCATION_MAX_AGE"
      candidates ←
          required_int_range env "SIGNA_VERIFICATION_TARGETING_MAX_CANDIDATES" (pos 1) (pos 1000)
      lifetime ← required_duration env "SIGNA_VERIFICATION_TARGETING_REQUEST_LIFETIME"
      let policy : VerificationTargetingPolicy F = record {
        version = targeting_version;
        radius_meters = radius;
        location_max_age = age;
        max_candidates = candidates;
        request_lifetime = lifetime;
      }
      validate_targeting policy
      ok (some policy)

    -- `LoadVerificationTargetingPolicy`; `none` is a policy that is not set.
    unfoldable pub load_verification_targeting_policy :
        Result Error (Option (VerificationTargetingPolicy F))
    unfolding configured required_positive_float required_duration required_int_range
        validate_targeting
    load_verification_targeting_policy =
        let found = configured targeting_names in
        if found == 0
        then ok none
        else if not (found == 4)
        then err targeting_incomplete
        else read_targeting
