-- ===== src/Examples/Bolting.antt =====
-- Running bolts and the loop over a feature's stages on the sample board.
use devteam.Prelude.{
  [], false, none, refl, some, true, ◌≡◌, ◌≢◌, ◌∷◌, ◌==◌, nat_eq, string_eq, text_eq,
}
use devteam.Stage.Status.{not_started, revising}
use devteam.Feature.Types.{Feature}
use devteam.Db.Stages.{
  is_per_bolt_stage, get_stage_definition, get_feature_stage_for_bolt, get_feature_stage,
  update_feature_stage, update_feature_stage_for_bolt,
}
use devteam.Db.Events.{get_latest_outcome, record_audit_event}
use devteam.Db.Features.{load_feature_state, row_of}
use devteam.Stage.Definitions.Phase1.{stage_1_3}
use devteam.Pipeline.System.{System, get_feature, get_feature_stage_row, role_not_loaded}
use devteam.Pipeline.Review.{agent_failed, StageRunResult}
use devteam.Pipeline.Verdict.{is_recirculated}
use devteam.Pipeline.Agent.{Visit, answered}
use devteam.Pipeline.Close.{StageRun, ran, not_run}
use devteam.Pipeline.Run.{bolt_for, run_stage}
use devteam.Pipeline.Left.{row_left}
use devteam.Pipeline.Approval.{approved_row}
use devteam.Pipeline.Approved.{no_more, after_run-approves}
use devteam.Pipeline.BoltRun.{after_run, went_through}
use devteam.Pipeline.AllBolts.{Site, spent, run_all_bolts}
use devteam.Pipeline.Returning.{run_all_bolts-returns}
use devteam.Pipeline.Loop.{Turn, ended, advance_feature}
use devteam.Pipeline.Stuck.{run_stage-advance_feature}
use devteam.Examples.Data.{login, row, start, clock, board, broken_run}

abbrev pub quiet_day : Visit
quiet_day = record {
  worktree = none;
  role_error = none;
  attempt = λ n. answered [] (record { output = "log"; error = "exit 1"; success = false });
  cancelled = false;
  unchanged_impl_files = [];
  reviewer_role_error = none;
  review = answered [] (record { output = ""; error = ""; success = true });
}

abbrev idle_site : Site
idle_site = record {
  bolt_visits = λ n stage. quiet_day;
  shared_visits = λ stage. quiet_day;
  prompts = "gated" ∷ [];
  decisions = λ bolts. [];
  cancelled = true;
}

run_all_bolts-returns_example : (run_all_bolts clock idle_site login start).2 ≢ spent
run_all_bolts-returns_example = run_all_bolts-returns clock idle_site login start

abbrev in_bolt : Feature
in_bolt = record login { current_bolt = 2 }

abbrev result_of : StageRun → StageRunResult
result_of (ran r) = r
result_of (not_run e) = broken_run

abbrev failed_stage : System × Feature × StageRun
failed_stage = run_stage clock quiet_day in_bolt "3.1" start

bolt_row-read : get_feature_stage_row start in_bolt.id "3.1" 2 ≡ some (row "3.1" 2 revising 0)
unfolding get_feature_stage_row get_feature_stage_for_bolt
bolt_row-read = refl

is_bolt_stage : is_per_bolt_stage "3.1" ≡ true
unfolding is_per_bolt_stage
is_bolt_stage = refl

nothing_stored : get_latest_outcome start.db in_bolt.id "3.1-review" ≡ none
unfolding get_latest_outcome
nothing_stored = refl

failed_stage-ran : failed_stage ≡ (failed_stage.0, in_bolt, ran (result_of failed_stage.2))
unfolding run_stage is_per_bolt_stage get_stage_definition get_feature_stage_row
    get_feature_stage_for_bolt
failed_stage-ran = refl

abbrev failed_result : StageRunResult
failed_result = result_of failed_stage.2

failed_stage-source : failed_result.outcome_source ≡ agent_failed
unfolding run_stage get_stage_definition is_per_bolt_stage get_feature_stage_row
    get_feature_stage_for_bolt get_latest_outcome record_audit_event update_feature_stage_for_bolt
failed_stage-source = refl

nothing_recirculated : is_recirculated failed_stage.0 in_bolt.id "3.1" ≡ false
unfolding run_stage get_stage_definition is_per_bolt_stage get_feature_stage_row
    get_feature_stage_for_bolt get_latest_outcome record_audit_event update_feature_stage_for_bolt
nothing_recirculated = refl

after_run-approves_example :
    let (left, f', end) = after_run clock 2 "3.1" no_more [] failed_stage in
    (get_feature_stage_row left in_bolt.id "3.1" 2
      ≡ some (approved_row clock (row_left clock (ran failed_result) (row "3.1" 2 revising 0))))
    × (end ≡ went_through (failed_result ∷ []))
after_run-approves_example =
    after_run-approves clock quiet_day 1 "3.1" [] start failed_stage.0 in_bolt failed_result
      (row "3.1" 2 revising 0) is_bolt_stage refl refl refl refl nothing_stored bolt_row-read
      failed_stage-ran failed_stage-source nothing_recirculated

abbrev pub saved_board : System
saved_board = record start { db = record board { features = row_of login ∷ [] } }

abbrev unreadable : Visit
unreadable = record quiet_day { role_error = some "no INSTRUCTIONS.md" }

abbrev broken_stage : System × Feature × StageRun
broken_stage = run_stage clock unreadable login "1.3" saved_board

third_row-saved :
    get_feature_stage_row saved_board login.id "1.3" (bolt_for login "1.3")
    ≡ some (row "1.3" 0 not_started 0)
unfolding get_feature_stage_row get_feature_stage is_per_bolt_stage
third_row-saved = refl

broken_stage-not_run :
    broken_stage
    ≡ (broken_stage.0, login, not_run (role_not_loaded stage_1_3.lead_agent "no INSTRUCTIONS.md"))
unfolding run_stage get_stage_definition is_per_bolt_stage get_feature_stage_row get_feature_stage
broken_stage-not_run = refl

broken_stage-feature : get_feature broken_stage.0 login.id ≡ some login
unfolding run_stage get_stage_definition is_per_bolt_stage get_feature_stage_row load_feature_state
    get_feature_stage record_audit_event update_feature_stage
broken_stage-feature = refl

broken_stage-definition : get_stage_definition broken_stage.0.db "1.3" ≡ some stage_1_3
unfolding run_stage get_stage_definition is_per_bolt_stage get_feature_stage_row get_feature_stage
    record_audit_event update_feature_stage
broken_stage-definition = refl

abbrev next_turn : Turn
next_turn = record {
  cancelled = false;
  visit = quiet_day;
  bolt_visits = λ stage. quiet_day;
  is_space = λ c. c == b' ';
  unit_of_work = none;
  dag = none;
  merged = [];
}

run_stage-advance_feature_example :
    advance_feature clock (next_turn ∷ []) login.id broken_stage.0 ≡ (broken_stage.0, ended none)
run_stage-advance_feature_example =
    run_stage-advance_feature clock clock unreadable next_turn [] login login login "1.3"
      (role_not_loaded stage_1_3.lead_agent "no INSTRUCTIONS.md") saved_board broken_stage.0
      (row "1.3" 0 not_started 0) stage_1_3 third_row-saved tt broken_stage-not_run
      broken_stage-feature broken_stage-definition refl
