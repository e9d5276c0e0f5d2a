-- ===== src/Lifecycle.antt =====
-- internal/incidents/lifecycle/policy.go: the freshness policy of an incident.
pub mod Sweeps
mod Tests
use signa.Prelude.{
  String, Bool, not, ◌&&◌, ◌||◌, Option, none, some, if◌then◌else◌, str_eq, is_some,
}
use signa.Prelude.Int.{pos, ◌+ℤ◌, ltb_ℤ, leb_ℤ}
use signa.Prelude.Result.{Result, ok, fail_if, ◌>>=◌, ◌>>◌}
use signa.Prelude.Time.{Time, Duration, is_zero, sub}

abbrev pub open_status : String
open_status = "OPEN"

abbrev pub resolving_status : String
resolving_status = "RESOLVING"

abbrev pub resolved_status : String
resolved_status = "RESOLVED"

abbrev pub expired_status : String
expired_status = "EXPIRED"

pub record Policy : Type 0 where
  pub resolving_after : Duration
  pub resolved_after : Duration
  pub expired_after : Duration

pub record Incident : Type 0 where
  pub status : String
  pub activity_at : Time
  pub resolved_at : Option Time
  pub expires_at : Option Time

pub record Decision : Type 0 where
  pub status : String
  pub activity_at : Time
  pub age : Duration
  pub expires_at : Time
  pub resolved_at : Option Time

pub data Error : Type 0 where
  not_positive not_increasing no_activity : Error
  unsupported : String → Error

-- `Policy.Validate`.
unfoldable pub validate : Policy → Result Error (Unit {0})
validate p = do
  fail_if
      (leb_ℤ p.resolving_after (pos 0)
        || leb_ℤ p.resolved_after (pos 0)
        || leb_ℤ p.expired_after (pos 0))
      not_positive
  fail_if (leb_ℤ p.resolved_after p.resolving_after || leb_ℤ p.expired_after p.resolved_after)
      not_increasing

-- The inner `switch` of `Evaluate`, for a stored status that is neither resolved nor expired.
abbrev pub status_by_age : Policy → Duration → String
status_by_age p elapsed =
    if leb_ℤ p.expired_after elapsed
    then expired_status
    else if leb_ℤ p.resolved_after elapsed
    then resolved_status
    else if leb_ℤ p.resolving_after elapsed
    then resolving_status
    else open_status

-- The outer `switch` of `Evaluate`.
unfoldable pub next_status : Policy → String → Duration → String
next_status p stored elapsed =
    if str_eq stored expired_status
    then expired_status
    else if str_eq stored resolved_status
    then (if leb_ℤ p.expired_after elapsed then expired_status else resolved_status)
    else status_by_age p elapsed

-- The last `switch` of `Evaluate`.
unfoldable pub resolution_time : Policy → Incident → String → Option Time
resolution_time p incident status =
    if str_eq status resolved_status
    then (if str_eq incident.status resolved_status && is_some incident.resolved_at
        then incident.resolved_at
        else some (incident.activity_at +ℤ p.resolved_after))
    else if str_eq status expired_status
    then incident.resolved_at
    else none

abbrev pub clamp_age : Duration → Duration
clamp_age age = if ltb_ℤ age (pos 0) then pos 0 else age

unfoldable pub is_supported : String → Bool
is_supported status =
    str_eq status open_status
    || str_eq status resolving_status
    || str_eq status resolved_status
    || str_eq status expired_status

-- The decision of `Evaluate` once its guards have passed.
abbrev pub decide : Time → Incident → Policy → Decision
decide now incident policy =
    let elapsed = sub now incident.activity_at in
    let status = next_status policy incident.status elapsed in
    record {
      status = status;
      activity_at = incident.activity_at;
      age = clamp_age elapsed;
      expires_at = incident.activity_at +ℤ policy.expired_after;
      resolved_at = resolution_time policy incident status;
    }

unfoldable pub evaluate : Time → Incident → Policy → Result Error Decision
evaluate now incident policy = do
  validate policy
  fail_if (is_zero incident.activity_at) no_activity
  fail_if (not (is_supported incident.status)) (unsupported incident.status)
  ok (decide now incident policy)
