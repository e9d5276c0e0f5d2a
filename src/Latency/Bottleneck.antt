-- ===== src/Latency/Bottleneck.antt =====
-- The current bottleneck of internal/latency/timeline.go.
-- The stages stand in the order of the timeline, from place k on.
use signa.Latency.{Input, StageTiming, Stage}
use signa.Latency.Build.{
  build_timeline, find_stage, bottleneck, new_stage, is_blocking, stages_of, timeline_stage,
  position,
}
use signa.Prelude.{
  ℕ, suc, ◌≤◌, ◌<◌, ◌≡◌, if_case, refl, ◌≢◌, inl, inr, Bool, true, false, none, some, List, [], ◌∷◌,
  arith, ◌==◌, Bool-cases, subst, Option,
}

abbrev InOrder : ℕ → List StageTiming → Type 0
InOrder k [] = Unit
InOrder k (t ∷ stages) = (position t.name ≡ k) × InOrder (suc k) stages

==_refl : (n : ℕ) → (n == n) ≡ true
==_refl n = ground arith

find_stage-head : (t : StageTiming) (stages : List StageTiming) → find_stage (t ∷ stages) t.name ≡ t
unfolding find_stage
find_stage-head t stages = rw (==_refl (position t.name)) refl

find_stage-tail :
    (t : StageTiming) (stages : List StageTiming) (name : Stage)
    → position t.name ≢ position name
    → find_stage (t ∷ stages) name ≡ find_stage stages name
unfolding find_stage
find_stage-tail t stages name apart =
    let no : (position t.name == position name) ≡ false = ground arith in rw no refl

abbrev blocks : List StageTiming → Stage → Bool
blocks stages name = is_blocking (find_stage stages name).state

some_inj : (a b : Stage) → Path (Option Stage) (some a) (some b) → a ≡ b
some_inj a b e = cc

-- A stage of place k or more blocks, and none between k and it does.
abbrev FirstFrom : ℕ → List StageTiming → Stage → Type 0
FirstFrom k stages name =
    (k ≤ position name)
    × (blocks stages name ≡ true)
    × ((earlier : Stage)
        → k ≤ position earlier
        → position earlier < position name
        → blocks stages earlier ≡ false)

-- The first stage that blocks, of stages from place k on.
bottleneck-some :
    (k : ℕ) (stages : List StageTiming) (name : Stage)
    → InOrder k stages
    → bottleneck stages ≡ some name
    → FirstFrom k stages name
unfolding bottleneck find_stage
bottleneck-some k [] name o e = absurd (cc)
bottleneck-some k (t ∷ stages) name (place, o) e = elim (Bool-cases (is_blocking t.state)) [
  | inl blocked ↦
      let named : t.name ≡ name = some_inj t.name name (rw blocked at e) in
      subst (FirstFrom k (t ∷ stages)) named (
        omega arith,
        rw (==_refl (position t.name)) blocked,
        λ earlier low high. absurd (omega arith),
      )
  | inr passed ↦
      let (low, blocking, before) = bottleneck-some (suc k) stages name o (rw passed at e) in
      let apart : (position t.name == position name) ≡ false = ground arith in
      (
        omega arith,
        rw apart blocking,
        λ earlier from up. elim (Bool-cases (position t.name == position earlier)) [
          | inl same ↦ rw same passed
          | inr other ↦ rw other (before earlier (ground arith) up)
        ],
      )
]

bottleneck-none :
    (stages : List StageTiming) (name : Stage)
    → bottleneck stages ≡ none
    → blocks stages name ≡ false
unfolding bottleneck find_stage
bottleneck-none [] name e = refl
bottleneck-none (t ∷ stages) name e = elim (Bool-cases (is_blocking t.state)) [
  | inl blocked ↦
      let found : Path (Option Stage) (some t.name) none = rw blocked at e in absurd (cc)
  | inr passed ↦
      if_case (λ (x : StageTiming). is_blocking x.state ≡ false) (position t.name == position name)
        passed (bottleneck-none stages name (rw passed at e))
]

stages_of-InOrder : (input : Input) → InOrder 0 (stages_of input)
unfolding stages_of new_stage
stages_of-InOrder input = (refl, (refl, (refl, (refl, (refl, (refl, (refl, (refl, tt))))))))

-- The current bottleneck of a timeline is a stage that is backlogged or failed, and no stage before it is.
pub build_timeline-bottleneck :
    (input : Input) (name earlier : Stage)
    → (build_timeline input).current_bottleneck ≡ some name
    → position earlier < position name
    → (is_blocking (timeline_stage (build_timeline input) name).state ≡ true)
      × (is_blocking (timeline_stage (build_timeline input) earlier).state ≡ false)
unfolding build_timeline timeline_stage
build_timeline-bottleneck input name earlier e up =
    let (_, blocking, before) =
      bottleneck-some 0 (stages_of input) name (stages_of-InOrder input) e in
    (blocking, before earlier (omega arith) up)

-- A timeline without a current bottleneck has no stage that is backlogged or failed.
pub build_timeline-no_bottleneck :
    (input : Input) (name : Stage)
    → (build_timeline input).current_bottleneck ≡ none
    → is_blocking (timeline_stage (build_timeline input) name).state ≡ false
unfolding build_timeline timeline_stage
build_timeline-no_bottleneck input name e = bottleneck-none (stages_of input) name e
