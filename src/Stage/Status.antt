-- ===== src/Stage/Status.antt =====
-- internal/stage/stage.go: phases and statuses.
use devteam.Prelude.{
  Bool, Eq, List, String, [], arith, ℕ, ◌≡◌, ◌↔◌, ◌∷◌, ◌==◌, if◌then◌else◌, nat_eq, string_eq,
}

abbrev pub phase_initialization : String
phase_initialization = "initialization"

abbrev pub phase_ideation : String
phase_ideation = "ideation"

abbrev pub phase_inception : String
phase_inception = "inception"

abbrev pub phase_construction : String
phase_construction = "construction"

abbrev pub phase_operation : String
phase_operation = "operation"

abbrev pub all_phases : List String
all_phases =
    phase_initialization ∷ phase_ideation ∷ phase_inception ∷ phase_construction ∷ phase_operation
    ∷ []

unfoldable pub phase_display : String → String
phase_display phase =
    if phase == phase_initialization
    then "Initialization"
    else if phase == phase_ideation
    then "Ideation"
    else if phase == phase_inception
    then "Inception"
    else if phase == phase_construction
    then "Construction"
    else if phase == phase_operation
    then "Operation"
    else phase

-- The status texts that the program writes into feature_stages. `failed` is written by RunStage
-- (internal/pipeline/stage_runner.go) and is none of the six constants of stage.go.
pub data Status : Type 0 where
  not_started in_progress awaiting_approval revising completed skipped failed : Status

abbrev pub index : Status → ℕ
index not_started = 0
index in_progress = 1
index awaiting_approval = 2
index revising = 3
index completed = 4
index skipped = 5
index failed = 6

pub index_iff : (a b : Status) → ((index a == index b) ≡ Bool.true) ↔ (a ≡ b)
index_iff a b = ground arith

instance abbrev pub status_eq : Eq Status
status_eq = record { beq = λ a b. index a == index b; beq_iff = index_iff }

unfoldable pub stage_checkbox : Status → String
stage_checkbox not_started = "[ ]"
stage_checkbox in_progress = "[-]"
stage_checkbox awaiting_approval = "[?]"
stage_checkbox revising = "[R]"
stage_checkbox completed = "[x]"
stage_checkbox skipped = "[S]"
stage_checkbox failed = "[ ]"
