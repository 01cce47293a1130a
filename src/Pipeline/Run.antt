-- ===== src/Pipeline/Run.antt =====
-- internal/pipeline/stage_runner.go: RunStage. A panic of Go's, which RunStage recovers from, does
-- not come up in what is modelled.
use devteam.Prelude.{
  Bool, List, Option, String, [], none, not, some, ℕ, ◌&&◌, ◌||◌, ◌==◌, if◌then◌else◌, nat_eq,
  string_eq, text_eq,
}
use devteam.Stage.Status.{revising, failed, phase_construction, phase_operation}
use devteam.Feature.Types.{Feature}
use devteam.Db.Types.{StageDefinition, FeatureStage, OutcomeRow, text}
use devteam.Db.Stages.{is_per_bolt_stage, get_stage_definition}
use devteam.Db.Events.{get_latest_outcome, delete_outcomes_for_phase}
use devteam.Pipeline.System.{
  System, Env, broadcast, prepare_impl_repos, save_smoke_rule, call, audit, ◌▷◌,
  get_feature_stage_row, update_feature_stage_row, save_feature_state_row, no_definition,
  no_current_bolt, not_initialized, role_not_loaded, quota_exhausted, wait_cancelled,
  dispatch_failed,
}
use devteam.Pipeline.Review.{RoleResult, OutcomeSource, smoke_failed, reviewer_said_no}
use devteam.Pipeline.Agent.{
  Visit, Dispatched, finished, quota_hit, stopped, given_up, max_retries, dispatch_attempts,
}
use devteam.Pipeline.Checks.{
  passed, read_outcome, stage_smoke_check, is_nonempty, dispatch_reviewer, record_review,
  is_not_ready,
}
use devteam.Pipeline.Close.{StageRun, not_run, when, mark, start_stage, close_stage}

abbrev pub bolt_for : Feature → String → ℕ
bolt_for f stage = if is_per_bolt_stage stage then f.current_bolt else 0

-- EnsureSpecWorktree: a worktree that is made is kept with the feature.
unfoldable pub ensure_spec_worktree : Option String → Feature → System → System × Feature
ensure_spec_worktree none f sys = (sys, f)
ensure_spec_worktree (some dir) f sys =
    let f' = record f { worktree_dir = dir } in (save_feature_state_row f' sys, f')

-- The rest of RunStage for one row, in the order of the source.
module _ (env : Env) (visit : Visit) (f : Feature) (stage : String) (bolt : ℕ)
    (def : StageDefinition) (fs : FeatureStage) where
  -- Smoke failures are saved as a rule.
  unfoldable pub record_smoke : List String → System → System
  record_smoke failures =
      when (is_nonempty failures) (call (save_smoke_rule f.id def.lead_agent stage failures))

  -- The review of a stage that passed, if its definition names a reviewer.
  abbrev pub wants_review : OutcomeRow → List String → Bool
  wants_review outcome failures =
      not (def.reviewer == "") && not (is_nonempty failures) && passed outcome

  unfoldable pub review_stage_run :
      RoleResult → OutcomeRow → List String → OutcomeSource → System → System × StageRun
  unfolding dispatch_reviewer record_review close_stage
  review_stage_run rr outcome failures source sys =
      let (after, rv) =
        if wants_review outcome failures
        then dispatch_reviewer env.now visit f def sys
        else (sys, none) in
      close_stage env f stage bolt def fs rr outcome failures
        (if is_not_ready rv then reviewer_said_no else source) rv (record_review f def rv after)

  unfoldable pub judge : RoleResult → OutcomeRow × OutcomeSource → System → System × StageRun
  unfolding record_smoke review_stage_run
  judge rr (outcome, source) sys =
      let failures = if passed outcome then stage_smoke_check visit def else [] in
      review_stage_run rr outcome failures (if is_nonempty failures then smoke_failed else source)
        (record_smoke failures sys)

  unfoldable pub after_dispatch : System × Dispatched → System × StageRun
  unfolding judge read_outcome update_feature_stage_row audit
  after_dispatch (sys, finished rr) =
      judge rr (read_outcome f stage rr (get_latest_outcome sys.db f.id stage)) sys
  after_dispatch (sys, stopped) = (sys, not_run wait_cancelled)
  after_dispatch (sys, quota_hit err) = (
    sys
        ▷ call (broadcast f.id "quota_exhausted" stage 0)
        ▷ audit f.id "QUOTA_EXHAUSTED" stage def.phase (text err)
        ▷ mark env f stage bolt revising fs.revision_count,
    not_run (quota_exhausted stage err),
  )
  after_dispatch (sys, given_up err) = (
    sys ▷ mark env f stage bolt failed fs.revision_count ▷ call (broadcast f.id "error" stage 0),
    not_run (dispatch_failed def.lead_agent stage err),
  )

  -- The old outcomes are cleared, the role is loaded, and then the dispatch. The context is made
  -- before; buildStageContext has no error to return.
  unfoldable pub run_prepared : Option String → System → System × StageRun
  unfolding dispatch_attempts after_dispatch delete_outcomes_for_phase
  run_prepared (some e) sys = (
    record sys { db = (delete_outcomes_for_phase sys.db f.id stage).0 },
    not_run (role_not_loaded def.lead_agent e),
  )
  run_prepared none sys =
      let cleared : System = record sys { db = (delete_outcomes_for_phase sys.db f.id stage).0 } in
      after_dispatch
        (dispatch_attempts env.now visit f.id stage def.lead_agent max_retries 0 cleared)

  unfoldable pub run_started : System → System × StageRun
  unfolding run_prepared
  run_started sys =
      let in_repos = def.phase == phase_construction || def.phase == phase_operation in
      run_prepared visit.role_error (when in_repos (call (prepare_impl_repos f.id)) sys)

  unfoldable pub run_row : System → System × Feature × StageRun
  unfolding start_stage ensure_spec_worktree run_started
  run_row sys =
      let (ready, f') =
        ensure_spec_worktree visit.worktree f (start_stage env f stage bolt def fs sys) in
      let (after, run) = run_started ready in (after, f', run)

-- RunStage behind the read of the row.
unfoldable pub run_with :
    Env
    → Visit
    → Feature
    → String
    → StageDefinition
    → Option FeatureStage
    → System
    → System × Feature × StageRun
unfolding run_row
run_with env visit f stage def none sys =
    (sys, f, not_run (not_initialized stage (bolt_for f stage)))
run_with env visit f stage def (some fs) sys =
    run_row env visit f stage (bolt_for f stage) def fs sys

unfoldable pub run_stage : Env → Visit → Feature → String → System → System × Feature × StageRun
unfolding run_with
run_stage env visit f stage sys = elim (get_stage_definition sys.db stage) [
  | none ↦ (sys, f, not_run (no_definition stage))
  | some def ↦
      if is_per_bolt_stage stage && f.current_bolt == 0
      then (sys, f, not_run (no_current_bolt stage))
      else run_with env visit f stage def (get_feature_stage_row sys f.id stage (bolt_for f stage))
          sys
]
