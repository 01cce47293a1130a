-- ===== src/Examples/Moves.antt =====
-- Approving, rejecting and jumping on the sample board.
use mathlib.Core.Option
use devteam.Prelude.{List, Option, [], keep, none, refl, some, true, ◌<◌, ◌≡◌, ◌↔◌, ◌∷◌}
use devteam.Gate.{max_revisions}
use devteam.Stage.Status.{awaiting_approval, revising}
use devteam.Db.Types.{FeatureStage, StageDefinition}
use devteam.Db.Stages.{
  is_per_bolt_stage, get_feature_stage_for_bolt, get_feature_stage, get_stage_definition, in_scope,
}
use devteam.Stage.Definitions.{stage_definitions}
use devteam.Stage.Definitions.Phase1.{stage_1_1}
use devteam.Pipeline.System.{get_feature_stage_row, too_few_revisions}
use devteam.Pipeline.Verdict.{approve_and_advance, reject_stage, accept_stage_as_is}
use devteam.Pipeline.Rejection.{
  IsRejection, reject_all, reject_stage-IsRejection, reject_all-accept_stage_as_is,
}
use devteam.Pipeline.Approval.{IsApproval, approve_and_advance-IsApproval}
use devteam.Pipeline.Advance.{advance_stage}
use devteam.Pipeline.Following.{advance_plainly, advance_stage-follows}
use devteam.Pipeline.Jump.{before_stage}
use devteam.Examples.Data.{login, row, start, clock}

abbrev first_row : FeatureStage
first_row = row "1.1" 0 awaiting_approval 1

first_row-read : get_feature_stage_row start "login-1" "1.1" 0 ≡ some first_row
unfolding get_feature_stage_row get_feature_stage
first_row-read = refl

abbrev bolt_row : FeatureStage
bolt_row = row "3.1" 2 revising 0

bolt_row-read : get_feature_stage_row start "login-1" "3.1" 2 ≡ some bolt_row
unfolding get_feature_stage_row get_feature_stage_for_bolt
bolt_row-read = refl

abbrev or_else {ℓ} : {A : Type ℓ} → A → Option A → A
or_else a none = a
or_else a (some b) = b

first_definition : get_stage_definition start.db "1.1" ≡ some stage_1_1
unfolding get_stage_definition
first_definition = refl

reject_stage-IsRejection_example :
    IsRejection login "1.1" 0 first_row start (reject_stage login "1.1" 0 "unclear" start)
reject_stage-IsRejection_example =
    reject_stage-IsRejection login "1.1" 0 "unclear" start first_row stage_1_1 first_row-read
      first_definition

reject_all-accept_stage_as_is_example :
    let sent_back = reject_all login "1.1" 0 ("unclear" ∷ []) start in
    accept_stage_as_is clock login "1.1" 0 sent_back
      ≡ (sent_back, login, some (too_few_revisions max_revisions 2))
    ↔ 2 < max_revisions
reject_all-accept_stage_as_is_example =
    reject_all-accept_stage_as_is clock login "1.1" 0 ("unclear" ∷ []) start first_row stage_1_1
      first_row-read first_definition refl

bolt_stage : is_per_bolt_stage "3.1" ≡ true
unfolding is_per_bolt_stage
bolt_stage = refl

approve_and_advance-IsApproval_example :
    IsApproval clock login "3.1" 2 bolt_row start (approve_and_advance clock login "3.1" 2 start)
approve_and_advance-IsApproval_example =
    approve_and_advance-IsApproval clock login "3.1" 1 start bolt_row bolt_stage bolt_row-read

advance_stage-follows_example :
    advance_stage clock login "1.1" start ≡ advance_plainly clock login "1.1" start
advance_stage-follows_example = advance_stage-follows clock login "1.1" start

abbrev mvp_stages : List StageDefinition
mvp_stages = keep (in_scope "mvp") stage_definitions

abbrev early_stages : List StageDefinition
early_stages = or_else [] (before_stage "1.4" mvp_stages)
