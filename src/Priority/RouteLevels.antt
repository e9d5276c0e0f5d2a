-- ===== src/Priority/RouteLevels.antt =====
-- What route relevance may change in a decision.
use signa.Prelude.{ℕ, ◌≤◌, ◌≡◌, ◌≢◌, true, [], ◌∷◌, refl, inl, inr, false, arith, Bool-cases}
use signa.Prelude.Float.{Float}
use signa.Prelude.Result.{ok, ◌>>=◌, >>=-eq-ok, ok_inj}
use signa.Priority.{
  Decision, p3, Level, p2, Policy, none_level, evaluate, Input, is_disputed, p1, Incident,
}
use signa.Priority.Routes.{
  route_eligible, add_reasons, check_relevance, apply_relevance, RouteRelevance, evaluate_route,
  promote, relevant, is_urgent, is_none, unknown, promotable, not_relevant,
}

abbrev pub rank : Level → ℕ
rank p1 = 3
rank p2 = 2
rank p3 = 1
rank none_level = 0
rank (Level.other _) = 0

slow-rank : (l : Level) → is_urgent l ≡ false → rank l ≤ 1
slow-rank p1 h = absurd (cc)
slow-rank p2 h = absurd (cc)
slow-rank p3 h = omega arith
slow-rank none_level h = omega arith
slow-rank (Level.other s) h = omega arith

none-rank : (l : Level) → is_none l ≡ true → rank l ≤ 0
none-rank p1 h = absurd (cc)
none-rank p2 h = absurd (cc)
none-rank p3 h = absurd (cc)
none-rank none_level h = omega arith
none-rank (Level.other s) h = absurd (cc)

promotable-not-disputed : (i : Incident) → is_disputed i.confidence ≡ true → promotable i ≡ false
promotable-not-disputed i h = rw h refl

module _ {F : Type 0} ⦃f : Float F⦄ where
  -- The decisions before and after the relevance of the route is applied.
  pub record Raised (policy : Policy F) (input : Input F) (route : RouteRelevance)
      (base level : Level) : Type 0 where
    pub not_lowered : rank base ≤ rank level
    pub p1_kept : level ≡ p1 → base ≡ p1
    pub raised_only_if : level ≢ base → (route ≡ relevant) × (route_eligible policy input ≡ true)
    pub raised_at_most : level ≢ base → rank level ≤ 2
    pub disputed_at_most :
        is_disputed input.incident.confidence ≡ true → level ≢ base → rank level ≤ 1

  Raised-refl :
      (policy : Policy F) (input : Input F) (route : RouteRelevance) (l : Level)
      → Raised policy input route l l
  Raised-refl policy input route l = record {
    not_lowered = omega arith;
    p1_kept = λ e. e;
    raised_only_if = λ n. absurd (n refl);
    raised_at_most = λ n. absurd (n refl);
    disputed_at_most = λ _ n. absurd (n refl);
  }

  promote-Raised :
      (policy : Policy F) (input : Input F) (base : Decision)
      → Raised policy input relevant base.level (promote policy input base).level
  unfolding promote
  promote-Raised policy input base = elim (Bool-cases (is_urgent base.level)) [
    | inl urgent ↦ rw urgent (Raised-refl policy input relevant base.level)
    | inr slow ↦ rw slow (elim (Bool-cases (route_eligible policy input)) [
      | inr out ↦ rw out (Raised-refl policy input relevant base.level)
      | inl eligible ↦ rw eligible (elim (Bool-cases (promotable input.incident)) [
        | inl able ↦ rw able (record {
          not_lowered = omega (arith, slow-rank base.level slow);
          p1_kept = λ e. cc;
          raised_only_if = λ _. (refl, eligible);
          raised_at_most = λ _. omega arith;
          disputed_at_most = λ h. cc (promotable-not-disputed input.incident h);
        })
        | inr unable ↦ rw unable (elim (Bool-cases (is_none base.level)) [
          | inl unlisted ↦ rw unlisted (record {
            not_lowered = omega (arith, none-rank base.level unlisted);
            p1_kept = λ e. cc;
            raised_only_if = λ _. (refl, eligible);
            raised_at_most = λ _. omega arith;
            disputed_at_most = λ _ _. omega arith;
          })
          | inr listed ↦ rw listed (Raised-refl policy input relevant base.level)
        ])
      ])
    ])
  ]

  apply_relevance-Raised :
      (policy : Policy F) (input : Input F) (route : RouteRelevance) (base : Decision)
      (d : Decision)
      → apply_relevance policy input route base ≡ ok d
      → Raised policy input route base.level d.level
  unfolding apply_relevance
  apply_relevance-Raised policy input unknown base d e =
      rw (← ok_inj e) (Raised-refl policy input unknown base.level)
  apply_relevance-Raised policy input not_relevant base d e =
      rw (← ok_inj e) (Raised-refl policy input not_relevant base.level)
  apply_relevance-Raised policy input relevant base d e =
      rw (← ok_inj e) (promote-Raised policy input (add_reasons base ("route_relevant" ∷ [])))
  apply_relevance-Raised policy input (RouteRelevance.other s) base d e = absurd (cc)

  -- When a route evaluation succeeds, so does the plain one, and the relevance of the route never
  -- lowers its level: it never makes a P1, and it raises a level only for a relevant route of an
  -- incident that is eligible, to P2 at most, and to P3 at most if the incident is disputed.
  pub evaluate_route-Raised :
      (policy : Policy F) (input : Input F) (route : RouteRelevance) {d : Decision}
      → evaluate_route policy input route ≡ ok d
      → (base : Decision) × (evaluate policy input ≡ ok base)
        × Raised policy input route base.level d.level
  unfolding evaluate_route
  evaluate_route-Raised policy input route {d} e =
      let (_, _, rest) =
        >>=-eq-ok (check_relevance route)
          (λ _. evaluate policy input >>= apply_relevance policy input route) e in
      let (base, first, second) =
        >>=-eq-ok (evaluate policy input) (apply_relevance policy input route) rest in
      (base, first, apply_relevance-Raised policy input route base d second)
