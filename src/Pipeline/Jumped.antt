-- ===== src/Pipeline/Jumped.antt =====
-- internal/pipeline/stage_runner.go: the rows that JumpToStage leaves.
use mathlib.Core.Option
use devteam.Prelude.{
  All, Bool, List, Option, String, any, drop, length, none, some, ℕ, ◌+◌, ◌≡◌, ◌⊎◌, ◌&&◌, ◌∷◌, ◌++◌,
  ◌==◌, if◌then◌else◌, nat_eq, string_eq, text_eq,
}
use devteam.Stage.Status.{Status, not_started, in_progress, awaiting_approval, skipped}
use devteam.Feature.Types.{Feature}
use devteam.Db.Types.{StageDefinition, FeatureStage}
use devteam.Db.Rows.{same_key}
use devteam.Db.Stages.{written, get_feature_stage}
use devteam.Pipeline.System.{System}

abbrev set_row : Status → FeatureStage → FeatureStage
set_row st r = written st 0 none none r

abbrev holds_stage : String → StageDefinition → Bool
holds_stage s d = d.id == s

-- What a jump makes of a row: the target is to be run, and those passed over are skipped.
abbrev pub jumped :
    String → String → List StageDefinition → String → String → ℕ → FeatureStage → FeatureStage
jumped f target passed f' s' b' r =
    if same_key f target 0 f' s' b'
    then set_row not_started r
    else if f == f' && any (holds_stage s') passed && 0 == b'
    then set_row skipped r
    else r

-- The row of a stage is in progress or awaits approval.
abbrev pub AtWork : System → String → StageDefinition → Type 0
AtWork sys f s =
    (r : FeatureStage) × (get_feature_stage sys.db f s.id ≡ some r)
    × ((r.status ≡ in_progress) ⊎ (r.status ≡ awaiting_approval))

abbrev pub NotAtWork : System → String → List StageDefinition → Type 0
NotAtWork sys f ss = All (λ s. AtWork sys f s → ⊥) ss

-- The stages that a jump passes over, of those before the target: all, where no stage is at work,
-- and else those behind the first that is.
abbrev pub IsPassed :
    System → String → List StageDefinition → List StageDefinition → List StageDefinition → Type 0
IsPassed sys f stages before passed =
    (NotAtWork sys f stages × (passed ≡ before))
    ⊎ ((pre post : List StageDefinition) × (current : StageDefinition) × (stages
          ≡ pre ++ current ∷ post)
        × NotAtWork sys f pre
        × AtWork sys f current
        × (passed ≡ drop (length pre + 1) before))
