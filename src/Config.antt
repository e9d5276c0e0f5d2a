-- ===== src/Config.antt =====
-- internal/config: the settings that the programs read from the environment. `os.Getenv` and the
-- parsing of numbers, durations and URLs are parameters; an `int` is an integer.
pub mod Origins
pub mod Policies
pub mod Load
pub mod Agreement
pub mod Tests
use signa.Prelude.{ℕ, ◌*◌, String, Bool, true, not, ◌&&◌, Option, none, some, if◌then◌else◌, str_eq}
use signa.Prelude.Float.{Float}
use signa.Prelude.Int.{ℤ, pos, ltb_ℤ, leb_ℤ}
use signa.Prelude.Result.{Result, ok, err}
use signa.Prelude.Text.{trim_text}
use signa.Prelude.Time.{Duration}

pub data Error : Type 0 where
  required invalid : String → Error
  not_increasing radii_not_increasing targeting_incomplete bad_version : Error
  bad_radius bad_durations bad_limit bad_same_site cookie_not_secure : Error
  ttl_too_long window_too_short bad_retention : Error
  empty_origin wildcard_origin blank_in_origin bad_origin bad_scheme : Error
  no_host not_only_authority bad_port : Error

-- What `url.Parse` finds in an origin.
pub record Url : Type 0 where
  pub scheme : String
  pub host : String
  pub hostname : String
  pub port : String
  pub has_user : Bool
  pub path : String
  pub raw_query : String
  pub fragment : String
  pub opaque : String

-- `os.Getenv`, and the parsers of packages strconv, time and net/url, where `none` is an error.
pub record Env (F : Type 0) : Type 0 where
  pub getenv : String → String
  pub parse_float : String → Option F
  pub parse_duration : String → Option Duration
  pub atoi : String → Option ℤ
  pub parse_bool : String → Option Bool
  pub parse_uint16 : String → Option ℕ
  pub parse_url : String → Option Url
  pub to_lower : String → String

abbrev pub seconds : ℕ → Duration
seconds n = pos (n * 1_000_000_000)

abbrev pub milliseconds : ℕ → Duration
milliseconds n = pos (n * 1_000_000)

-- A value that is read and fits, or the error for its name.
abbrev pub accept : {A : Type 0} → Error → (A → Bool) → Option A → Result Error A
accept e fits none = err e
accept e fits (some a) = if fits a then ok a else err e

abbrev pub is_positive : ℤ → Bool
is_positive n = ltb_ℤ (pos 0) n

abbrev pub in_range : ℤ → ℤ → ℤ → Bool
in_range low high n = leb_ℤ low n && leb_ℤ n high

module _ {F : Type 0} (env : Env F) where
  -- `requiredEnv`.
  abbrev pub required_env : String → Result Error String
  required_env name =
      let value = trim_text (env.getenv name) in
      if str_eq value "" then err (required name) else ok value

  -- `requiredDuration`, and `requiredRetentionDuration` of retention.go.
  unfoldable pub required_duration : String → Result Error Duration
  required_duration name =
      let value = env.getenv name in
      if str_eq value ""
      then err (required name)
      else accept (invalid name) is_positive (env.parse_duration value)

  -- `requiredIntRange`, and `requiredRetentionBatchSize` of retention.go.
  unfoldable pub required_int_range : String → ℤ → ℤ → Result Error ℤ
  required_int_range name low high =
      let value = env.getenv name in
      if str_eq value ""
      then err (required name)
      else accept (invalid name) (in_range low high) (env.atoi value)

  -- `boolFromEnv`.
  unfoldable pub bool_from_env : String → Bool → Result Error Bool
  bool_from_env name fallback =
      let value = env.getenv name in
      if str_eq value ""
      then ok fallback
      else accept (invalid name) (λ _. true) (env.parse_bool value)

  -- `boundedIntFromEnv`.
  unfoldable pub bounded_int_from_env : String → ℤ → ℤ → Result Error ℤ
  bounded_int_from_env name fallback high =
      let value = env.getenv name in
      if str_eq value ""
      then ok fallback
      else accept (invalid name) (in_range (pos 1) high) (env.atoi value)

  -- `intFromEnv`.
  unfoldable pub int_from_env : String → ℤ → Result Error ℤ
  int_from_env name fallback =
      let value = env.getenv name in
      if str_eq value "" then ok fallback else accept (invalid name) is_positive (env.atoi value)

  -- `durationFromEnv`.
  unfoldable pub duration_from_env : String → Duration → Result Error Duration
  duration_from_env name fallback =
      let value = env.getenv name in
      if str_eq value ""
      then ok fallback
      else accept (invalid name) is_positive (env.parse_duration value)

  -- `value := os.Getenv(name); if value == "" { value = fallback }`.
  abbrev pub text_or : String → String → String
  text_or name fallback = let value = env.getenv name in if str_eq value "" then fallback else value

  module _ ⦃f : Float F⦄ where
    abbrev pub is_finite : (F → Bool) → F → Bool
    is_finite valid v = not (f.is_nan v) && not (f.is_inf v) && valid v

    -- `requiredFloat`.
    unfoldable pub required_float : String → (F → Bool) → Result Error F
    required_float name valid =
        let value = env.getenv name in
        if str_eq value ""
        then err (required name)
        else accept (invalid name) (is_finite valid) (env.parse_float value)

    abbrev pub is_above_zero : F → Bool
    is_above_zero v = f.lt f.nought v

    abbrev pub is_share : F → Bool
    is_share v = f.le f.nought v && f.le v f.one

    -- `requiredPositiveFloat`, whose one error names the value.
    unfoldable pub required_positive_float : String → Result Error F
    unfolding required_float
    required_positive_float name = elim (required_float name is_above_zero) [
      | ok value ↦ ok value
      | err e ↦ err (invalid name)
    ]
