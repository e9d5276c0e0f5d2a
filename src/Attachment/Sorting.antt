-- ===== src/Attachment/Sorting.antt =====
-- The insertion sort of `DecideAttachment` of internal/incidents/policy.go.
use signa.Attachment.{sort_from, finite_range, flip_onto, sink, Scored, sort_candidates}
use signa.Prelude.{
  ◌≡◌, if_case, ap, ◌∙◌, inl, inr, Bool, true, false, not, List, [], ◌∷◌, arith, if◌then◌else◌,
  Bool-cases, All, ◌⊎◌,
}
use signa.Prelude.Float.{Float, FloatLaws}

if_back : {A : Type 0} (P : A → Type 0) (b : Bool) (x y : A) → P (if b then x else y) → P x ⊎ P y
if_back P true x y h = inl h
if_back P false x y h = inr h

module _ {F : Type 0} ⦃f : Float F⦄ (laws : FloatLaws F) where
  abbrev pub InRange : Scored F → Type 0
  InRange c = finite_range c.score ≡ true

  -- b does not score above a.
  abbrev pub NotBelow : Scored F → Scored F → Type 0
  NotBelow a b = f.lt a.score b.score ≡ false

  InRange-not_nan : (c : Scored F) → InRange c → f.is_nan c.score ≡ false
  unfolding finite_range
  InRange-not_nan c h = ground arith

  NotBelow-trans :
      (a b c : Scored F)
      → InRange a
      → InRange b
      → InRange c
      → NotBelow a b
      → NotBelow b c
      → NotBelow a c
  NotBelow-trans a b c ra rb rc ab bc =
      let na = InRange-not_nan a ra in
      let nb = InRange-not_nan b rb in
      let nc = InRange-not_nan c rc in
      let ba : f.le b.score a.score ≡ true = laws.le-not-lt b.score a.score nb na ∙ ap not ab in
      let cb : f.le c.score b.score ≡ true = laws.le-not-lt c.score b.score nc nb ∙ ap not bc in
      let ca = laws.le_trans c.score b.score a.score cb ba in
      let e = laws.le-not-lt c.score a.score nc na in ground arith

  pub lt_asym :
      (a b : Scored F) → InRange a → InRange b → f.lt a.score b.score ≡ true → NotBelow b a
  lt_asym a b ra rb h =
      let na = InRange-not_nan a ra in
      let nb = InRange-not_nan b rb in
      let le = laws.lt-le a.score b.score h in
      let e = laws.le-not-lt a.score b.score na nb in ground arith

  -- The sorted part, with its last candidate first: none before it scores lower.
  abbrev Rising : List (Scored F) → Type 0
  Rising [] = Unit
  Rising (c ∷ before) = All (λ b. NotBelow b c) before × Rising before

  abbrev pub Falling : List (Scored F) → Type 0
  Falling [] = Unit
  Falling (c ∷ rest) = All (λ b. NotBelow c b) rest × Falling rest

  module _ (P : Scored F → Type 0) where
    sink-All :
        (c : Scored F) (before : List (Scored F)) → P c → All P before → All P (sink c before)
    unfolding sink
    sink-All c [] p h = (p, tt)
    sink-All c (d ∷ before) p (q, h) =
        if_case (All P) (f.lt d.score c.score) (q, sink-All c before p h) (p, (q, h))

    sort_from-All :
        (sorted rest : List (Scored F)) → All P sorted → All P rest → All P (sort_from sorted rest)
    unfolding sort_from
    sort_from-All sorted [] h _ = h
    sort_from-All sorted (c ∷ rest) h (p, k) =
        sort_from-All (sink c sorted) rest (sink-All c sorted p h) k

    flip_onto-All :
        (acc before : List (Scored F)) → All P acc → All P before → All P (flip_onto acc before)
    unfolding flip_onto
    flip_onto-All acc [] h _ = h
    flip_onto-All acc (c ∷ before) h (p, k) = flip_onto-All (c ∷ acc) before (p, h) k

    -- Sorting drops no candidate: what holds of all that it returns holds of all that it was given.
    sink-back :
        (c : Scored F) (before : List (Scored F)) → All P (sink c before) → P c × All P before
    unfolding sink
    sink-back c [] (p, _) = (p, tt)
    sink-back c (d ∷ before) h =
        elim (if_back (All P) (f.lt d.score c.score) (d ∷ sink c before) (c ∷ (d ∷ before)) h) [
          | inl (q, rest) ↦ let (p, k) = sink-back c before rest in (p, (q, k))
          | inr stays ↦ stays
        ]

    sort_from-back :
        (sorted rest : List (Scored F)) → All P (sort_from sorted rest) → All P sorted × All P rest
    unfolding sort_from
    sort_from-back sorted [] h = (h, tt)
    sort_from-back sorted (c ∷ rest) h =
        let (s, r) = sort_from-back (sink c sorted) rest h in
        let (p, k) = sink-back c sorted s in (k, (p, r))

    flip_onto-back :
        (acc before : List (Scored F)) → All P (flip_onto acc before) → All P acc × All P before
    unfolding flip_onto
    flip_onto-back acc [] h = (h, tt)
    flip_onto-back acc (c ∷ before) h =
        let ((p, k), r) = flip_onto-back (c ∷ acc) before h in (k, (p, r))

  All-map :
      (P Q : Scored F → Type 0) (cs : List (Scored F))
      → ((c : Scored F) → P c → Q c)
      → All P cs
      → All Q cs
  All-map P Q [] g h = tt
  All-map P Q (c ∷ cs) g (p, h) = (g c p, All-map P Q cs g h)

  -- All of the list do not score below c, and are in range: so they do not score below what c is above.
  All-trans :
      (d c : Scored F) (cs : List (Scored F))
      → InRange d
      → InRange c
      → NotBelow d c
      → All InRange cs
      → All (λ b. NotBelow b d) cs
      → All (λ b. NotBelow b c) cs
  All-trans d c [] rd rc dc rs h = tt
  All-trans d c (b ∷ cs) rd rc dc (rb, rs) (bd, h) =
      (NotBelow-trans b d c rb rd rc bd dc, All-trans d c cs rd rc dc rs h)

  sink-Rising :
      (c : Scored F) (before : List (Scored F))
      → InRange c
      → All InRange before
      → Rising before
      → Rising (sink c before)
  unfolding sink
  sink-Rising c [] rc rs h = (tt, tt)
  sink-Rising c (d ∷ before) rc (rd, rs) (above, h) = elim (Bool-cases (f.lt d.score c.score)) [
    | inl up ↦ rw up (
      sink-All (λ b. NotBelow b d) c before (lt_asym d c rd rc up) above,
      sink-Rising c before rc rs h,
    )
    | inr stays ↦ rw stays ((stays, All-trans d c before rd rc stays rs above), (above, h))
  ]

  sort_from-Rising :
      (sorted rest : List (Scored F))
      → All InRange sorted
      → All InRange rest
      → Rising sorted
      → Rising (sort_from sorted rest)
  unfolding sort_from
  sort_from-Rising sorted [] rs _ h = h
  sort_from-Rising sorted (c ∷ rest) rs (rc, rk) h =
      sort_from-Rising (sink c sorted) rest (sink-All InRange c sorted rc rs) rk
        (sink-Rising c sorted rc rs h)

  -- Each of the list scores at least as much as all of acc.
  Above : List (Scored F) → List (Scored F) → Type 0
  Above acc before = All (λ b. All (λ x. NotBelow b x) acc) before

  Above-cons :
      (c : Scored F) (acc before : List (Scored F))
      → All (λ b. NotBelow b c) before
      → Above acc before
      → Above (c ∷ acc) before
  unfolding Above
  Above-cons c acc [] h k = tt
  Above-cons c acc (b ∷ before) (p, h) (q, k) = ((p, q), Above-cons c acc before h k)

  flip_onto-Falling :
      (acc before : List (Scored F))
      → Falling acc
      → Rising before
      → Above acc before
      → Falling (flip_onto acc before)
  unfolding flip_onto Above
  flip_onto-Falling acc [] fall rise up = fall
  flip_onto-Falling acc (c ∷ before) fall (above, rise) (uc, up) =
      flip_onto-Falling (c ∷ acc) before (uc, fall) rise (Above-cons c acc before above up)

  Above-nil : (before : List (Scored F)) → Above [] before
  unfolding Above
  Above-nil [] = tt
  Above-nil (b ∷ before) = (tt, Above-nil before)

  pub sort_candidates-Falling :
      (cs : List (Scored F)) → All InRange cs → Falling (sort_candidates cs)
  unfolding sort_candidates
  sort_candidates-Falling cs rs =
      flip_onto-Falling [] (sort_from [] cs) tt (sort_from-Rising [] cs tt rs tt)
        (Above-nil (sort_from [] cs))

  pub sort_candidates-All :
      (P : Scored F → Type 0) (cs : List (Scored F)) → All P cs → All P (sort_candidates cs)
  unfolding sort_candidates
  sort_candidates-All P cs h = flip_onto-All P [] _ tt (sort_from-All P [] cs tt h)

  pub sort_candidates-back :
      (P : Scored F → Type 0) (cs : List (Scored F)) → All P (sort_candidates cs) → All P cs
  unfolding sort_candidates
  sort_candidates-back P cs h =
      let (_, k) = flip_onto-back P [] (sort_from [] cs) h in
      let (_, all) = sort_from-back P [] cs k in all
