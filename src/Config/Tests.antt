-- ===== src/Config/Tests.antt =====
-- An environment, for internal/config.
-- Durations are written as a number of hours, and numbers by one digit.
use signa.Priority
use signa.Config.{
  Env, required_float, bounded_int_from_env, bool_from_env, cookie_not_secure, int_from_env,
  duration_from_env, required_duration,
}
use signa.Config.Agreement.{load_priority_policy-validate}
use signa.Config.Load.{load_numbers, load}
use signa.Config.Origins.{web_allowed_origins_from_env}
use signa.Config.Policies.{
  IncidentLifecyclePolicy, load_priority_policy, load_incident_lifecycle_policy,
}
use signa.Prelude.{◌*◌, String, ◌≡◌, refl, ◌||◌, Option, none, some, if◌then◌else◌, str_eq}
use signa.Prelude.Float.{whole_numbers, whole_numbers-FloatLaws}
use signa.Prelude.Int.{ℤ, pos, pos_part}
use signa.Prelude.Result.{ok, err}
use signa.Prelude.Text.{trim_text}

abbrev digit : String → Option ℤ
digit s =
    if str_eq s "1"
    then some (pos 1)
    else if str_eq s "2"
    then some (pos 2)
    else if str_eq s "3"
    then some (pos 3)
    else none

abbrev hours : Option ℤ → Option ℤ
hours none = none
hours (some n) = some (pos (pos_part n * 3_600_000_000_000))

abbrev values : String → String
values name =
    if str_eq name "SIGNA_INCIDENT_RESOLVED_AFTER" || str_eq name "SIGNA_PRIORITY_P2_RADIUS_METERS"
    then "2"
    else if str_eq name "SIGNA_INCIDENT_EXPIRED_AFTER"
    then "3"
    else "1"

abbrev env : Env ℤ
env = record {
  getenv = values;
  parse_float = digit;
  parse_duration = λ s. hours (digit s);
  atoi = digit;
  parse_bool = λ s. none;
  parse_uint16 = λ s. none;
  parse_url = λ s. none;
  to_lower = λ s. s;
}

abbrev lifecycle : IncidentLifecyclePolicy
lifecycle = record {
  resolving_after = pos 3_600_000_000_000;
  resolved_after = pos 7_200_000_000_000;
  expired_after = pos 10_800_000_000_000;
  sweep_interval = pos 3_600_000_000_000;
}

lifecycle-loaded : load_incident_lifecycle_policy env ≡ ok lifecycle
unfolding load_incident_lifecycle_policy required_duration
lifecycle-loaded = refl

abbrev priority : Priority.Policy ℤ
priority = record {
  p1_radius_meters = pos 1;
  p2_radius_meters = pos 2;
  location_max_age = pos 3_600_000_000_000;
  incident_max_age = pos 3_600_000_000_000;
}

priority-loaded : load_priority_policy env ≡ ok priority
unfolding load_priority_policy required_duration required_float
priority-loaded = refl

load_priority_policy-validate_example : Priority.validate priority ≡ ok tt
load_priority_policy-validate_example =
    load_priority_policy-validate env ⦃laws = whole_numbers-FloatLaws⦄ priority priority-loaded

-- The cookie that crosses sites has to be secure, and is not by default.
abbrev cross_site : Env ℤ
cross_site = record env {
  getenv = λ name. if str_eq name "SIGNA_SESSION_COOKIE_SAME_SITE" then "none" else "";
}

cross_site-refused : load cross_site ≡ err cookie_not_secure
unfolding load load_numbers duration_from_env int_from_env bounded_int_from_env
    web_allowed_origins_from_env trim_text bool_from_env
cross_site-refused = refl
