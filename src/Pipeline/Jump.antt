-- ===== src/Pipeline/Jump.antt =====
-- internal/pipeline/stage_runner.go: JumpToStage and JumpToPhase.
use mathlib.Core.Option
use devteam.Prelude.{
  Bool, List, Option, String, [], drop, false, find, length, none, some, ℕ, ◌-◌, ◌||◌, ◌∷◌, ◌==◌,
  if◌then◌else◌, nat_eq, string_eq, text_eq,
}
use devteam.Stage.Status.{status_eq, not_started, in_progress, awaiting_approval, skipped}
use devteam.Feature.Types.{Feature}
use devteam.Db.Types.{StageDefinition, FeatureStage, skipped_stages}
use devteam.Db.Stages.{get_stages_for_scope, get_feature_stage}
use devteam.Pipeline.System.{
  System, ◌▷◌, audit, effective_scope, Error, no_stages, not_in_scope, phase_not_found,
}
use devteam.Pipeline.Advance.{set_stage}

-- The stages before the one of that id; `none` where there is no such stage.
abbrev pub before_stage : String → List StageDefinition → Option (List StageDefinition)
before_stage id [] = none
before_stage id (s ∷ ss) =
    if s.id == id then some [] else Option.map (λ before. s ∷ before) (before_stage id ss)

abbrev is_current_row : Option FeatureStage → Bool
is_current_row none = false
is_current_row (some fs) = fs.status == in_progress || fs.status == awaiting_approval

abbrev pub is_current : System → String → StageDefinition → Bool
is_current sys f s = is_current_row (get_feature_stage sys.db f s.id)

-- The stages behind the first current one, or all where no stage is current.
abbrev pub behind_current : System → String → List StageDefinition → List StageDefinition → ℕ
behind_current sys f all [] = 0
behind_current sys f all (s ∷ ss) =
    if is_current sys f s then length all - length ss else behind_current sys f all ss

-- The loop that marks stages as skipped.
unfoldable pub skip_all : String → List StageDefinition → System → System
skip_all f [] sys = sys
skip_all f (s ∷ ss) sys = skip_all f ss (set_stage f s.id skipped none sys)

unfoldable pub jump_to : Feature → String → ℕ → List StageDefinition → System → System
unfolding audit
jump_to f target start before sys =
    sys
    ▷ skip_all f.id (drop start before)
    ▷ set_stage f.id target not_started none
    ▷ audit f.id "JUMP_TO_STAGE" target "" (skipped_stages (length before) start)

unfoldable pub jump_to_stage : Feature → String → System → System × Option Error
jump_to_stage f target sys =
    let scope = effective_scope f.scope in
    elim (get_stages_for_scope sys.db scope) [
      | none ↦ (sys, some (no_stages scope))
      | some stages ↦ elim (before_stage target stages) [
        | none ↦ (sys, some (not_in_scope target scope))
        | some before ↦ (jump_to f target (behind_current sys f.id stages stages) before sys, none)
      ]
    ]

unfoldable pub jump_to_phase : Feature → String → System → System × Option Error
jump_to_phase f phase sys =
    let scope = effective_scope f.scope in
    elim (get_stages_for_scope sys.db scope) [
      | none ↦ (sys, some (no_stages scope))
      | some stages ↦ elim (find (λ s. s.phase == phase) stages) [
        | none ↦ (sys, some (phase_not_found phase scope))
        | some s ↦ jump_to_stage f s.id sys
      ]
    ]
