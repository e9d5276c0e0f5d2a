-- ===== src/Incidents/Repeating.antt =====
-- The evaluation of an incident in internal/incidents/lifecycle_processor.go, twice in a row.
use signa.Lifecycle
use signa.Incidents.{Row, Store}
use signa.Incidents.Attaching.{decided}
use signa.Incidents.LifecycleProcessor.{
  expires_changed, put_row, evaluate_row, status_changed, incident_of, same_lifecycle_time,
  decided_row, evaluate_locked, resolved_changed, write_decision,
}
use signa.Lifecycle.Sweeps.{
  stored, Accepted, evaluate-Accepted, Accepted-evaluate, next_status-next_status,
  next_status-IsSupported,
}
use signa.Prelude.{
  String, ◌≡◌, subst, if_case, refl, sym, ap, ◌∙◌, ◌≢◌, ◌⊎◌, inl, inr, true, not, ◌&&◌, Option,
  none, some, arith, str_eq, eq_refl, Bool-cases, Option-cases,
}
use signa.Prelude.Result.{ok, Result-cases, ok_inj}
use signa.Prelude.Time.{Time, sub}

same_lifecycle_time_refl : (t : Option Time) → same_lifecycle_time t t ≡ true
unfolding same_lifecycle_time
same_lifecycle_time_refl none = refl
same_lifecycle_time_refl (some t) = ground arith

put_row-row : (id : String) (row : Row) (s : Store) → (put_row id row s).row id ≡ some row
unfolding put_row
put_row-row id row s = rw (eq_refl id) refl

-- The resolution time is decided once.
resolution_time_again :
    (p : Lifecycle.Policy) (i : Lifecycle.Incident) (d : Lifecycle.Decision)
    → d.resolved_at ≡ Lifecycle.resolution_time p i d.status
    → Lifecycle.resolution_time p (stored i d) d.status ≡ d.resolved_at
unfolding Lifecycle.resolution_time
resolution_time_again p i d e = elim (Bool-cases (str_eq d.status Lifecycle.resolved_status)) [
  | inl resolved ↦ elim (Option-cases d.resolved_at) [
    | inr (t, set) ↦ rw (resolved, set) refl
    | inl unset ↦
        let never : d.resolved_at ≢ none = rw (e, resolved) (ground arith) in absurd (never unset)
  ]
  | inr other ↦ elim (Bool-cases (str_eq d.status Lifecycle.expired_status)) [
    | inl expired ↦ rw (other, expired) refl
    | inr open_still ↦
        let unset : d.resolved_at ≡ none = e ∙ (rw (other, open_still) refl) in
        rw (other, open_still, unset) refl
  ]
]

module _ (p : Lifecycle.Policy) (now : Time) where
  -- The engine decides again what it has decided.
  evaluate_again :
      (i : Lifecycle.Incident) (d : Lifecycle.Decision)
      → Lifecycle.evaluate now i p ≡ ok d
      → (d2 : Lifecycle.Decision) × (Lifecycle.evaluate now (stored i d) p ≡ ok d2)
        × (d2.status ≡ d.status)
        × (d2.expires_at ≡ d.expires_at)
        × (d2.resolved_at ≡ d.resolved_at)
  evaluate_again i d first =
      let (a, e) = evaluate-Accepted now i p first in
      let elapsed = sub now i.activity_at in
      let status_again : Lifecycle.next_status p d.status elapsed ≡ d.status = rw e (
        next_status-next_status p i.status elapsed elapsed (omega arith) (omega arith)
          (omega arith)) in
      let again : Accepted (stored i d) p = record {
        positive = a.positive;
        resolving_lt = a.resolving_lt;
        resolved_lt = a.resolved_lt;
        active = a.active;
        supported = rw e (next_status-IsSupported p i.status elapsed);
      } in
      let resolved : d.resolved_at ≡ Lifecycle.resolution_time p i d.status = rw e refl in
      (
        Lifecycle.decide now (stored i d) p,
        Accepted-evaluate now (stored i d) p again,
        status_again,
        sym (ap (λ (x : Lifecycle.Decision). x.expires_at) e),
        rw status_again (resolution_time_again p i d resolved),
      )

  -- A decision that agrees with the row writes nothing.
  write_decision_same :
      (id : String) (row : Row) (d : Lifecycle.Decision) (s : Store)
      → row.status ≡ d.status
      → row.expires_at ≡ some d.expires_at
      → row.resolved_at ≡ d.resolved_at
      → write_decision p id row now d s ≡ s
  unfolding write_decision
  write_decision_same id row d s status expires resolved =
      rw
        (
          status,
          expires,
          resolved,
          eq_refl d.status,
          same_lifecycle_time_refl (some d.expires_at),
          same_lifecycle_time_refl d.resolved_at,
        )
        refl

  evaluate_decided :
      (id : String) (row : Row) (d : Lifecycle.Decision) (s : Store)
      → Lifecycle.evaluate now (incident_of row) p ≡ ok d
      → evaluate_row p id now (some (decided_row d now row)) s ≡ ok s
  evaluate_decided id row d s first =
      let (d2, again, status, expires, resolved) = evaluate_again (incident_of row) d first in
      rw again (
        ap ok (
          write_decision_same id (decided_row d now row) d2 s (sym status) (ap some (sym expires))
            (sym resolved)))

  -- The store that a written decision leaves has the decided row.
  write_decision-row :
      (id : String) (row : Row) (d : Lifecycle.Decision) (s : Store)
      → (write_decision p id row now d s ≡ s)
        ⊎ ((write_decision p id row now d s).row id ≡ some (decided_row d now row))
  unfolding write_decision
  write_decision-row id row d s =
      elim (Bool-cases (
        not (status_changed row d)
        && not (expires_changed row d)
        && not (resolved_changed row d))) [
          | inl same ↦ inl (rw same refl)
          | inr differs ↦ inr (
              rw differs (
                if_case (λ (u : Store). u.row id ≡ some (decided_row d now row))
                  (not (status_changed row d)) (put_row-row id (decided_row d now row) s)
                  (put_row-row id (decided_row d now row) s)))
        ]

  -- Evaluating an incident again at the same moment changes nothing: the store that the first evaluation leaves is the one that the second leaves, so that a message that is delivered twice writes no second history entry and no second event.
  pub evaluate_locked-evaluate_locked :
      (id : String) (s s' : Store)
      → evaluate_locked p id now s ≡ ok s'
      → evaluate_locked p id now s' ≡ ok s'
  unfolding evaluate_locked
  evaluate_locked-evaluate_locked id s s' first = elim (Option-cases (s.row id)) [
    | inl absent ↦
        let same : s ≡ s' = ok_inj (rw absent at first) in
        subst (λ u. evaluate_locked p id now u ≡ ok u) same (rw (evaluate_locked, absent) refl)
    | inr (row, found) ↦ elim (Result-cases (Lifecycle.evaluate now (incident_of row) p)) [
      | inr (e, refused_with) ↦
          let bad = rw (found, evaluate_row, refused_with) at first in absurd (cc)
      | inl (d, decided) ↦
          let left : write_decision p id row now d s ≡ s' =
            ok_inj (rw (found, evaluate_row, decided) at first) in
          elim (write_decision-row id row d s) [
            | inl unchanged ↦
                let same : s ≡ s' = sym unchanged ∙ left in
                subst (λ u. evaluate_locked p id now u ≡ ok u) same
                  (rw (evaluate_locked, found, evaluate_row, decided) (ap ok unchanged))
            | inr written ↦
                let at_id : s'.row id ≡ some (decided_row d now row) =
                  subst (λ (u : Store). u.row id ≡ some (decided_row d now row)) left written in
                rw at_id (evaluate_decided id row d s' decided)
          ]
    ]
  ]
