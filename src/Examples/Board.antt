-- ===== src/Examples/Board.antt =====
-- The decisions of the pipeline on the sample board.
use devteam.Prelude.{refl, some, ◌≡◌}
use devteam.Stage.Status.{awaiting_approval}
use devteam.Db.Types.{FeatureStage}
use devteam.Db.Stages.{get_feature_stage}
use devteam.Pipeline.System.{get_feature_stage_row}
use devteam.Pipeline.Decide.{decide_next_action, auto_approve}
use devteam.Pipeline.Failed.{without_failed, decide_next_action-without_failed}
use devteam.Pipeline.Review.{process_stage_result}
use devteam.Pipeline.Outcomes.{row_for, process_stage_result-row}
use devteam.Examples.Data.{login, row, rows, start, clock, broken_run}

decide_next_action-without_failed_example :
    decide_next_action clock login (without_failed rows) "guided" start
    ≡ decide_next_action clock login rows "guided" start
decide_next_action-without_failed_example =
    decide_next_action-without_failed clock login rows "guided" start

abbrev first_row : FeatureStage
first_row = row "1.1" 0 awaiting_approval 1

first_row-read : get_feature_stage_row start "login-1" "1.1" 0 ≡ some first_row
unfolding get_feature_stage_row get_feature_stage
first_row-read = refl

process_stage_result-row_example :
    let (after, o) = process_stage_result clock login "1.1" (some broken_run) start in
    get_feature_stage_row after "login-1" "1.1" 0 ≡ some (row_for clock o first_row)
process_stage_result-row_example =
    process_stage_result-row clock login "1.1" broken_run start first_row first_row-read

-- In the guided mode the first stage is approved by itself, although a later one has failed.
decide_auto_approves : (decide_next_action clock login rows "guided" start).1 ≡ auto_approve "1.1" 0
unfolding decide_next_action
decide_auto_approves = refl
