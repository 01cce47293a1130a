-- ===== src/Feature/Phase.antt =====
-- internal/feature/feature.go: CurrentPhase and CurrentPhaseLegacy.
use devteam.Prelude.{
  All, All-map, All-of_test, Bool, String, Text, [], any, codes, false, inl, inr, not, refl,
  string_eq, true, ◌≡◌, ◌⊎◌, ◌||◌, ◌∷◌, ◌==◌, if◌then◌else◌, nat_eq, text_eq,
}
use devteam.Stage.Status.{
  phase_initialization, phase_ideation, phase_inception, phase_construction, phase_operation,
}
use devteam.Stage.Definitions.{stage_definitions}
use devteam.Feature.Types.{Feature}

-- strings.SplitN(s, ".", 2)[0]
abbrev first_part : Text → Text
first_part [] = []
first_part (c ∷ s) = if c == b'.' then [] else c ∷ first_part s

unfoldable pub phase_of_stage : String → String
phase_of_stage stage =
    let part = first_part (codes stage) in
    if stage == ""
    then phase_ideation
    else if part == codes "0"
    then phase_initialization
    else if part == codes "1"
    then phase_ideation
    else if part == codes "2"
    then phase_inception
    else if part == codes "3"
    then phase_construction
    else if part == codes "4"
    then phase_operation
    else phase_ideation

unfoldable pub current_phase : Feature → String
current_phase f = phase_of_stage f.current_stage

abbrev legacy : String → String
legacy phase =
    if phase == phase_initialization || phase == phase_ideation
    then "inception"
    else if phase == phase_inception
    then "planning"
    else if phase == phase_construction
    then "construction"
    else if phase == phase_operation
    then "delivery"
    else "inception"

unfoldable pub current_phase_legacy : Feature → String
current_phase_legacy f = legacy (current_phase f)

-- One of the five phases, with the legacy name that goes with it.
abbrev pub IsPhasePair : String → String → Type 0
IsPhasePair phase old =
    (phase ≡ phase_initialization) × (old ≡ "inception")
    ⊎ ((phase ≡ phase_ideation) × (old ≡ "inception")
        ⊎ ((phase ≡ phase_inception) × (old ≡ "planning")
            ⊎ ((phase ≡ phase_construction) × (old ≡ "construction")
                ⊎ (phase ≡ phase_operation) × (old ≡ "delivery"))))

-- The answers of the switch, by its tests.
abbrev switch : (e a b c d g : Bool) → String
switch e a b c d g =
    if e
    then phase_ideation
    else if a
    then phase_initialization
    else if b
    then phase_ideation
    else if c
    then phase_inception
    else if d
    then phase_construction
    else if g
    then phase_operation
    else phase_ideation

switch_fits : (e a b c d g : Bool) → IsPhasePair (switch e a b c d g) (legacy (switch e a b c d g))
switch_fits true a b c d g = inr (inl (refl, refl))
switch_fits false true b c d g = inl (refl, refl)
switch_fits false false true c d g = inr (inl (refl, refl))
switch_fits false false false true d g = inr (inr (inl (refl, refl)))
switch_fits false false false false true g = inr (inr (inr (inl (refl, refl))))
switch_fits false false false false false true = inr (inr (inr (inr (refl, refl))))
switch_fits false false false false false false = inr (inl (refl, refl))

-- Whatever its current stage, a feature is in one of the five phases, and its legacy phase is the
-- one of the old names that belongs to it.
pub current_phase-IsPhasePair :
    (f : Feature) → IsPhasePair (current_phase f) (current_phase_legacy f)
unfolding current_phase current_phase_legacy phase_of_stage
current_phase-IsPhasePair f =
    let part = first_part (codes f.current_stage) in
    switch_fits (f.current_stage == "") (part == codes "0") (part == codes "1") (part == codes "2")
      (part == codes "3") (part == codes "4")

table_phases : any (λ s. not (phase_of_stage s.id == s.phase)) stage_definitions ≡ false
unfolding phase_of_stage
table_phases = refl

-- For each of the 32 stages of the table, a feature at that stage is in the phase that the table
-- gives for it.
pub current_phase-stage_definitions :
    (f : Feature)
    → All (λ s. current_phase (record f { current_stage = s.id }) ≡ s.phase) stage_definitions
unfolding current_phase
current_phase-stage_definitions f =
    All-map (λ s. (phase_of_stage s.id == s.phase) ≡ true) (λ s. phase_of_stage s.id ≡ s.phase)
      stage_definitions (λ s. (string_eq.beq_iff _ _).0)
      (All-of_test (λ s. phase_of_stage s.id == s.phase) stage_definitions table_phases)
