-- ===== src/Lifecycle/Sweeps.antt =====
-- What repeated sweeps of the lifecycle policy do to one incident.
-- The incident that a sweep stores: the decided status and resolution time.
use signa.Lifecycle.{
  Policy, Incident, Decision, next_status, resolved_status, status_by_age, validate,
  resolving_status, expired_status, is_supported, decide, evaluate, open_status, resolution_time,
}
use signa.Prelude.{
  String, ◌≡◌, some, arith, inl, inr, Bool-cases, ℕ, ◌≤◌, refl, ◌≢◌, true, if◌then◌else◌, str_eq,
  if-ap, if_same, none, sym, ap, ◌∙◌,
}
use signa.Prelude.Int.{◌≤ℤ◌, leb_ℤ, pos, ◌<ℤ◌}
use signa.Prelude.Result.{ok}
use signa.Prelude.Time.{Duration, Time, sub, sub_mono}

abbrev pub stored : Incident → Decision → Incident
stored i d = record i {
  status = d.status;
  resolved_at = d.resolved_at;
  expires_at = some d.expires_at;
}

resolved_step :
    (p : Policy) (a b : Duration)
    → a ≤ℤ b
    → next_status p (next_status p resolved_status a) b ≡ next_status p resolved_status b
unfolding next_status
resolved_step p a b l = elim (Bool-cases (leb_ℤ p.expired_after a)) [
  | inl late ↦ rw late (ground arith)
  | inr early ↦ rw early
]

by_age_step :
    (p : Policy) (s : String) (a b : Duration)
    → p.resolving_after ≤ℤ p.resolved_after
    → p.resolved_after ≤ℤ p.expired_after
    → a ≤ℤ b
    → next_status p (status_by_age p a) b ≡ status_by_age p b
unfolding next_status
by_age_step p s a b h k l = elim (Bool-cases (leb_ℤ p.expired_after a)) [
  | inl late ↦ rw late (ground arith)
  | inr early ↦ rw early (elim (Bool-cases (leb_ℤ p.resolved_after a)) [
    | inl late ↦ rw late (ground arith)
    | inr early ↦ rw early (elim (Bool-cases (leb_ℤ p.resolving_after a)) [
      | inl late ↦ rw late (ground arith)
      | inr early ↦ rw early (ground arith)
    ])
  ])
]

pub next_status-next_status :
    (p : Policy) (s : String) (a b : Duration)
    → p.resolving_after ≤ℤ p.resolved_after
    → p.resolved_after ≤ℤ p.expired_after
    → a ≤ℤ b
    → next_status p (next_status p s a) b ≡ next_status p s b
unfolding next_status
next_status-next_status p s a b h k l = elim (Bool-cases (str_eq s expired_status)) [
  | inl e ↦ rw e refl
  | inr n ↦ elim (Bool-cases (str_eq s resolved_status)) [
    | inl r ↦ rw (n, r) (resolved_step p a b l)
    | inr m ↦ rw (n, m) (by_age_step p s a b h k l)
  ]
]

-- The four statuses in the order in which an incident ages.
unfoldable pub rank : String → ℕ
rank s =
    if str_eq s expired_status
    then 3
    else if str_eq s resolved_status
    then 2
    else if str_eq s resolving_status
    then 1
    else 0

rank_values :
    (rank open_status ≡ 0)
    × (rank resolving_status ≡ 1)
    × (rank resolved_status ≡ 2)
    × (rank expired_status ≡ 3)
unfolding rank
rank_values = (refl, refl, refl, refl)

abbrev pub rank_by_age : Policy → Duration → ℕ
rank_by_age p a =
    if leb_ℤ p.expired_after a
    then 3
    else if leb_ℤ p.resolved_after a
    then 2
    else if leb_ℤ p.resolving_after a
    then 1
    else 0

rank-status_by_age : (p : Policy) (a : Duration) → rank (status_by_age p a) ≡ rank_by_age p a
rank-status_by_age p a =
    simp (if-ap rank, rank_values.0, rank_values.1, rank_values.2, rank_values.3)

pub rank-next_status :
    (p : Policy) (s : String) (a : Duration)
    → rank (next_status p s a) ≡ (
        if str_eq s expired_status
        then 3
        else if str_eq s resolved_status
        then (if leb_ℤ p.expired_after a then 3 else 2)
        else rank_by_age p a)
unfolding next_status
rank-next_status p s a =
    simp (if-ap rank, rank_values.0, rank_values.1, rank_values.2, rank_values.3)

rank-next_status_mono :
    (p : Policy) (s : String) (a b : Duration)
    → p.resolving_after ≤ℤ p.resolved_after
    → p.resolved_after ≤ℤ p.expired_after
    → a ≤ℤ b
    → rank (next_status p s a) ≤ rank (next_status p s b)
rank-next_status_mono p s a b h k l =
    rw (rank-next_status p s a, rank-next_status p s b) (ground arith)

supported_values :
    (is_supported open_status ≡ true)
    × (is_supported resolving_status ≡ true)
    × (is_supported resolved_status ≡ true)
    × (is_supported expired_status ≡ true)
unfolding is_supported
supported_values = (refl, refl, refl, refl)

pub next_status-IsSupported :
    (p : Policy) (s : String) (a : Duration) → is_supported (next_status p s a) ≡ true
unfolding next_status
next_status-IsSupported p s a = simp (
  if-ap is_supported,
  if_same,
  supported_values.0,
  supported_values.1,
  supported_values.2,
  supported_values.3,
)

pub record Accepted (i : Incident) (p : Policy) : Type 0 where
  pub positive : pos 0 <ℤ p.resolving_after
  pub resolving_lt : p.resolving_after <ℤ p.resolved_after
  pub resolved_lt : p.resolved_after <ℤ p.expired_after
  pub active : i.activity_at ≢ pos 0
  pub supported : is_supported i.status ≡ true

pub evaluate-Accepted :
    (now : Time) (i : Incident) (p : Policy) {d : Decision}
    → evaluate now i p ≡ ok d
    → Accepted i p × (d ≡ decide now i p)
unfolding evaluate validate
evaluate-Accepted now i p e = ground arith

pub Accepted-evaluate :
    (now : Time) (i : Incident) (p : Policy) → Accepted i p → evaluate now i p ≡ ok (decide now i p)
unfolding evaluate validate
Accepted-evaluate now i p a = ground arith

resolution_time-set :
    (p : Policy) (i : Incident) (s : String) → s ≡ resolved_status → resolution_time p i s ≢ none
unfolding resolution_time
resolution_time-set p i s e = rw e (ground arith)

resolution_time-kept :
    (p : Policy) (i : Incident) (s : String)
    → s ≡ resolved_status
    → i.status ≡ resolved_status
    → i.resolved_at ≢ none
    → resolution_time p i s ≡ i.resolved_at
unfolding resolution_time
resolution_time-kept p i s e f set = rw (e, f) (ground arith)

module _ (now later : Time) (i : Incident) (p : Policy) {d : Decision}
    (first : evaluate now i p ≡ ok d) (order : now ≤ℤ later) where
  -- Sweeping an incident twice decides as one sweep at the later time does: the second sweep, of the incident that the first one stored, succeeds, and so does a single sweep of the original incident at the later time, with the same status, age and expiry.
  pub evaluate-evaluate :
      (d2 d1 : Decision) × (evaluate later (stored i d) p ≡ ok d2)
      × (evaluate later i p ≡ ok d1)
      × (d2.status ≡ d1.status)
      × (d2.age ≡ d1.age)
      × (d2.expires_at ≡ d1.expires_at)
  evaluate-evaluate =
      let (a, e) = evaluate-Accepted now i p first in
      let elapsed = sub now i.activity_at in
      let again : Accepted (stored i (decide now i p)) p = record {
        positive = a.positive;
        resolving_lt = a.resolving_lt;
        resolved_lt = a.resolved_lt;
        active = a.active;
        supported = next_status-IsSupported p i.status elapsed;
      } in
      rw e (
        _,
        _,
        Accepted-evaluate later (stored i (decide now i p)) p again,
        Accepted-evaluate later i p a,
        next_status-next_status p i.status elapsed (sub later i.activity_at) (omega arith)
            (omega arith) (sub_mono now later i.activity_at order),
        refl,
        refl,
      )

  -- Later sweeps never move an incident back: from the incident that a sweep stored, a sweep at the same time or later decides a status of the same or a later rank, in the order open, resolving, resolved, expired.
  pub evaluate-rank_mono :
      {d2 : Decision} → evaluate later (stored i d) p ≡ ok d2 → rank d.status ≤ rank d2.status
  evaluate-rank_mono {d2} again =
      let (a, e) = evaluate-Accepted now i p first in
      let (_, e2) = evaluate-Accepted later (stored i d) p again in
      let elapsed = sub now i.activity_at in
      let elapsed2 = sub later i.activity_at in
      let longer = sub_mono now later i.activity_at order in
      rw
        (
          e2,
          e,
          next_status-next_status p i.status elapsed elapsed2 (omega arith) (omega arith) longer,
        )
        (rank-next_status_mono p i.status elapsed elapsed2 (omega arith) (omega arith) longer)

  -- While a second sweep leaves the incident resolved, the resolution time stays what the first sweep that found it resolved had set; a resolved incident always has one.
  pub evaluate-resolved_at :
      {d2 : Decision}
      → evaluate later (stored i d) p ≡ ok d2
      → d.status ≡ resolved_status
      → d2.status ≡ resolved_status
      → (d2.resolved_at ≡ d.resolved_at) × (d.resolved_at ≢ none)
  evaluate-resolved_at {d2} again r r2 =
      let (_, e) = evaluate-Accepted now i p first in
      let (_, e2) = evaluate-Accepted later (stored i d) p again in
      let set : d.resolved_at ≢ none =
        rw e (resolution_time-set p i _ (sym (ap (λ (x : Decision). x.status) e) ∙ r)) in
      (
        ap (λ (x : Decision). x.resolved_at) e2
            ∙ resolution_time-kept p (stored i d) _ (sym (ap (λ (x : Decision). x.status) e2) ∙ r2)
                r set,
        set,
      )
