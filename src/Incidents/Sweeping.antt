-- ===== src/Incidents/Sweeping.antt =====
-- The query of the lifecycle sweep of internal/incidents, against the lifecycle policy.
-- Within the range of `int64`, a time is at least `d` before `now` exactly if the age is at least `d`.
use signa.Lifecycle
use signa.Incidents.{Row}
use signa.Incidents.LifecycleProcessor.{is_over, is_due, incident_of, activity_of}
use signa.Lifecycle.Sweeps.{Accepted, rank, rank-next_status, rank_by_age}
use signa.Prelude.{
  String, ◌≡◌, refl, sym, ap, ◌∙◌, inl, inr, Bool, true, false, ◌&&◌, ◌||◌, Option, none, some,
  arith, ltb, if◌then◌else◌, str_eq, eq_iff, Bool-cases,
}
use signa.Prelude.Int.{◌+ℤ◌, ◌-ℤ◌, ◌<ℤ◌, leb_ℤ, +ℤ_parts, -ℤ_parts, pos, ◌≤ℤ◌}
use signa.Prelude.Time.{Time, Duration, sub, IsAge, leb_ℤ-saturate, max_duration}

before-age :
    (now activity : Time) (d : Duration)
    → IsAge d
    → leb_ℤ activity (now -ℤ d) ≡ leb_ℤ d (sub now activity)
unfolding sub
before-age now activity d range =
    let turn : leb_ℤ activity (now -ℤ d) ≡ leb_ℤ d (now -ℤ activity) =
      ground (arith, -ℤ_parts now d, -ℤ_parts now activity) in
    turn ∙ sym (leb_ℤ-saturate d (now -ℤ activity) range)

after-age :
    (now activity : Time) (d : Duration)
    → IsAge d
    → leb_ℤ (activity +ℤ d) now ≡ leb_ℤ d (sub now activity)
unfolding sub
after-age now activity d range =
    let turn : leb_ℤ (activity +ℤ d) now ≡ leb_ℤ d (now -ℤ activity) =
      ground (arith, +ℤ_parts activity d, -ℤ_parts now activity) in
    turn ∙ sym (leb_ℤ-saturate d (now -ℤ activity) range)

-- The expiry that is stored, if there is one, is the one that the policy computes.
abbrev pub IsCurrent : Lifecycle.Policy → Time → Option Time → Type 0
IsCurrent p activity none = Unit
IsCurrent p activity (some t) = t ≡ activity +ℤ p.expired_after

is_over-age :
    (p : Lifecycle.Policy) (now activity : Time) (expires : Option Time)
    → IsAge p.expired_after
    → IsCurrent p activity expires
    → is_over expires activity now p.expired_after ≡ leb_ℤ p.expired_after (sub now activity)
is_over-age p now activity none range current = before-age now activity p.expired_after range
is_over-age p now activity (some t) range current =
    rw current (after-age now activity p.expired_after range)

open_due :
    (p : Lifecycle.Policy) (age : Duration)
    → p.resolving_after <ℤ p.resolved_after
    → p.resolved_after <ℤ p.expired_after
    → leb_ℤ p.resolving_after age ≡ ltb 0 (rank_by_age p age)
open_due p age h k = ground arith

resolving_due :
    (p : Lifecycle.Policy) (age : Duration)
    → p.resolving_after <ℤ p.resolved_after
    → p.resolved_after <ℤ p.expired_after
    → leb_ℤ p.resolved_after age ≡ ltb 1 (rank_by_age p age)
resolving_due p age h k = ground arith

resolved_due : (late : Bool) → late ≡ ltb 2 (if late then 3 else 2)
resolved_due true = refl
resolved_due false = refl

-- The condition of the query, of the three values that it reads.
abbrev due_of : Lifecycle.Policy → Time → String → Time → Option Time → Bool
due_of p now status activity expires =
    (str_eq status Lifecycle.open_status && leb_ℤ activity (now -ℤ p.resolving_after))
    || (str_eq status Lifecycle.resolving_status && leb_ℤ activity (now -ℤ p.resolved_after))
    || (str_eq status Lifecycle.resolved_status && is_over expires activity now p.expired_after)

first_of_three : (b : Bool) → (b || false || false) ≡ b
first_of_three true = refl
first_of_three false = refl

second_of_three : (b : Bool) → (false || b || false) ≡ b
second_of_three true = refl
second_of_three false = refl

module _ (p : Lifecycle.Policy) (now activity : Time) (expires : Option Time)
    (positive : pos 0 <ℤ p.resolving_after) (order : p.resolving_after <ℤ p.resolved_after)
    (order2 : p.resolved_after <ℤ p.expired_after) (limit : p.expired_after ≤ℤ max_duration)
    (current : IsCurrent p activity expires) where
  due_of-rank :
      (status : String)
      → Lifecycle.is_supported status ≡ true
      → due_of p now status activity expires
        ≡ ltb (rank status) (rank (Lifecycle.next_status p status (sub now activity)))
  unfolding Lifecycle.is_supported rank
  due_of-rank status supported = elim (Bool-cases (str_eq status Lifecycle.open_status)) [
    | inl e ↦ rw ((eq_iff status Lifecycle.open_status).0 e) (
        first_of_three _
        ∙ before-age now activity p.resolving_after (omega arith)
        ∙ open_due p (sub now activity) order order2
        ∙ ap (ltb 0) (sym (rank-next_status p Lifecycle.open_status (sub now activity))))
    | inr n ↦ elim (Bool-cases (str_eq status Lifecycle.resolving_status)) [
      | inl e ↦ rw ((eq_iff status Lifecycle.resolving_status).0 e) (
          second_of_three _
          ∙ before-age now activity p.resolved_after (omega arith)
          ∙ resolving_due p (sub now activity) order order2
          ∙ ap (ltb 1) (sym (rank-next_status p Lifecycle.resolving_status (sub now activity))))
      | inr m ↦ elim (Bool-cases (str_eq status Lifecycle.resolved_status)) [
        | inl e ↦ rw ((eq_iff status Lifecycle.resolved_status).0 e) (
            is_over-age p now activity expires (omega arith) current
            ∙ resolved_due _
            ∙ ap (ltb 2) (sym (rank-next_status p Lifecycle.resolved_status (sub now activity))))
        | inr k ↦
            let last : str_eq status Lifecycle.expired_status ≡ true = ground arith in
            rw ((eq_iff status Lifecycle.expired_status).0 last)
              (ap (ltb 3) (sym (rank-next_status p Lifecycle.expired_status (sub now activity))))
      ]
    ]
  ]

-- The query of a sweep finds exactly the incidents that the evaluation moves to a later status, in the order open, resolving, resolved, expired: for a policy and an incident that the engine accepts, with durations in the range of `int64` and an expiry that is not stored or is the one that the policy computes.
pub is_due-rank :
    (p : Lifecycle.Policy) (now : Time) (row : Row)
    → Accepted (incident_of row) p
    → p.expired_after ≤ℤ max_duration
    → IsCurrent p (activity_of row) row.expires_at
    → is_due p now row
      ≡ ltb (rank row.status) (rank (Lifecycle.decide now (incident_of row) p).status)
unfolding is_due
is_due-rank p now row a limit current =
    due_of-rank p now (activity_of row) row.expires_at a.positive a.resolving_lt a.resolved_lt limit
      current row.status a.supported
