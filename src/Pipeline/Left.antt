-- ===== src/Pipeline/Left.antt =====
-- internal/pipeline/stage_runner.go: RunStage against the row that it leaves.
use devteam.Prelude.{
  Bool, Bool-cases, List, Option, Option-cases, String, arith, inl, inr, none, some, ℕ, ◌+◌, ◌≡◌,
  ◌∙◌, ◌&&◌, ◌==◌, if◌then◌else◌, nat_eq, string_eq, text_eq,
}
use devteam.Stage.Status.{Status, in_progress, awaiting_approval, revising, failed}
use devteam.Feature.Types.{Feature}
use devteam.Db.Types.{FeatureStage, StageDefinition, OutcomeRow}
use devteam.Db.Stages.{written, is_per_bolt_stage, get_stage_definition}
use devteam.Db.Events.{get_latest_outcome, delete_outcomes_for_phase}
use devteam.Pipeline.System.{
  System, Env, Call, call, get_feature_stage_row, Error, quota_exhausted, dispatch_failed,
  role_not_loaded, wait_cancelled,
}
use devteam.Pipeline.Rows.{get_row-update_self, untouched_rows, get_row-call}
use devteam.Pipeline.Review.{RoleResult, ReviewerResult, OutcomeSource}
use devteam.Pipeline.Agent.{
  Visit, Dispatched, finished, quota_hit, stopped, given_up, dispatch_attempts, max_retries,
}
use devteam.Pipeline.Checks.{dispatch_reviewer, read_outcome}
use devteam.Pipeline.Close.{
  StageRun, ran, not_run, when, sent_back, start_stage, send_back, await_approval, fail_stage,
  open_gate, close_stage,
}
use devteam.Pipeline.Run.{
  bolt_for, wants_review, record_smoke, review_stage_run, judge, after_dispatch, run_prepared,
  run_started, run_row, run_with, run_stage,
}
use devteam.Pipeline.Kept.{
  HasRowsOf, get_row-HasRowsOf, dispatch_attempts-HasRowsOf, dispatch_reviewer-HasRowsOf,
  record_review-HasRowsOf, ensure_spec_worktree-HasRowsOf,
}

abbrev marked : Env → Status → ℕ → FeatureStage → FeatureStage
marked env st n fs = written st n (some env.now) none fs

abbrev row_after_error : Env → Error → FeatureStage → FeatureStage
row_after_error env (quota_exhausted stage e) fs = marked env revising fs.revision_count fs
row_after_error env (dispatch_failed agent stage e) fs = marked env failed fs.revision_count fs
row_after_error env (role_not_loaded agent e) fs = marked env in_progress fs.revision_count fs
row_after_error env wait_cancelled fs = marked env in_progress fs.revision_count fs
row_after_error env _ fs = fs

-- The row that goes with what RunStage returns.
abbrev pub row_left : Env → StageRun → FeatureStage → FeatureStage
row_left env (ran r) fs =
    if sent_back r.outcome_source
    then marked env revising (fs.revision_count + 1) fs
    else if r.outcome.outcome == "failed"
    then marked env revising fs.revision_count fs
    else marked env awaiting_approval fs.revision_count fs
row_left env (not_run e) fs = row_after_error env e fs

get_row-when :
    (b : Bool) (c : Call) (sys : System) (f s : String) (n : ℕ)
    → get_feature_stage_row (when b (call c) sys) f s n ≡ get_feature_stage_row sys f s n
get_row-when b c sys f s n = elim (Bool-cases b) [
  | inl e ↦ rw e (get_row-call sys c f s n)
  | inr e ↦ rw e
]

module _ (env : Env) (f : Feature) (stage : String) (bolt : ℕ) (def : StageDefinition)
    (fs : FeatureStage) where
  abbrev row_of : System → Option FeatureStage
  row_of sys = get_feature_stage_row sys f.id stage bolt

  abbrev started : FeatureStage
  started = marked env in_progress fs.revision_count fs

  row-start_stage :
      (sys : System)
      → row_of sys ≡ some fs
      → row_of (start_stage env f stage bolt def fs sys) ≡ some started
  unfolding start_stage
  row-start_stage sys at = simp (untouched_rows, get_row-when, get_row-update_self, at)

  row-send_back :
      (failures : List String) (sys : System)
      → row_of sys ≡ some started
      → row_of (send_back env f stage bolt def fs failures sys)
        ≡ some (marked env revising (fs.revision_count + 1) fs)
  unfolding send_back
  row-send_back failures sys at = simp (untouched_rows, get_row-update_self, at)

  row-open_gate :
      (o : OutcomeRow) (rr : RoleResult) (sys : System)
      → row_of sys ≡ some started
      → row_of (open_gate env f stage bolt def fs o rr sys)
        ≡ some (
            if o.outcome == "failed"
            then marked env revising fs.revision_count fs
            else marked env awaiting_approval fs.revision_count fs)
  unfolding open_gate await_approval fail_stage
  row-open_gate o rr sys at = elim (Bool-cases (o.outcome == "failed")) [
    | inl e ↦ rw e (simp (untouched_rows, get_row-when, get_row-update_self, at))
    | inr e ↦ rw e (simp (untouched_rows, get_row-when, get_row-update_self, at))
  ]

  row-close_stage :
      (rr : RoleResult) (o : OutcomeRow) (failures : List String) (source : OutcomeSource)
      (rv : Option ReviewerResult) (sys : System)
      → row_of sys ≡ some started
      → let (after, run) = close_stage env f stage bolt def fs rr o failures source rv sys in
        row_of after ≡ some (row_left env run fs)
  unfolding close_stage get_feature_stage_row
  row-close_stage rr o failures source rv sys at = elim (Bool-cases (sent_back source)) [
    | inl e ↦ rw e (row-send_back failures sys at)
    | inr e ↦ rw e (row-open_gate o rr sys at)
  ]

  row-review_stage_run :
      (visit : Visit) (rr : RoleResult) (o : OutcomeRow) (failures : List String)
      (source : OutcomeSource) (sys : System)
      → row_of sys ≡ some started
      → let (after, run) =
          review_stage_run env visit f stage bolt def fs rr o failures source sys in
        row_of after ≡ some (row_left env run fs)
  unfolding review_stage_run
  row-review_stage_run visit rr o failures source sys at =
      elim (Bool-cases (wants_review env visit f stage bolt def fs o failures)) [
        | inl e ↦
            let (after, rv) = dispatch_reviewer env.now visit f def sys in
            let h = dispatch_reviewer-HasRowsOf env.now visit f def sys in
            let k = record_review-HasRowsOf f def rv after in
            rw e (
              row-close_stage rr o failures _ rv _
                (get_row-HasRowsOf sys _ f.id stage bolt (k.0 ∙ h.0, k.1 ∙ h.1) ∙ at))
        | inr e ↦
            let k = record_review-HasRowsOf f def none sys in
            rw e (
              row-close_stage rr o failures _ none _
                (get_row-HasRowsOf sys _ f.id stage bolt k ∙ at))
      ]

  row-judge :
      (visit : Visit) (rr : RoleResult) (o : OutcomeRow × OutcomeSource) (sys : System)
      → row_of sys ≡ some started
      → let (after, run) = judge env visit f stage bolt def fs rr o sys in
        row_of after ≡ some (row_left env run fs)
  unfolding judge record_smoke
  row-judge visit rr o sys at =
      row-review_stage_run visit rr o.0 _ _ _ (get_row-when _ _ sys f.id stage bolt ∙ at)

  row-after_dispatch :
      (visit : Visit) (sys : System) (d : Dispatched)
      → row_of sys ≡ some started
      → let (after, run) = after_dispatch env visit f stage bolt def fs (sys, d) in
        row_of after ≡ some (row_left env run fs)
  unfolding after_dispatch
  row-after_dispatch visit sys (finished rr) at =
      row-judge visit rr (read_outcome f stage rr (get_latest_outcome sys.db f.id stage)) sys at
  row-after_dispatch visit sys stopped at = at
  row-after_dispatch visit sys (quota_hit err) at = simp (untouched_rows, get_row-update_self, at)
  row-after_dispatch visit sys (given_up err) at = simp (untouched_rows, get_row-update_self, at)

  row-cleared :
      (sys : System)
      → row_of sys ≡ some started
      → row_of (record sys { db = (delete_outcomes_for_phase sys.db f.id stage).0 }) ≡ some started
  unfolding delete_outcomes_for_phase
  row-cleared sys at =
      let h : HasRowsOf sys (record sys { db = (delete_outcomes_for_phase sys.db f.id stage).0 }) =
        ground arith in
      get_row-HasRowsOf sys _ f.id stage bolt h ∙ at

  row-run_prepared :
      (visit : Visit) (role_error : Option String) (sys : System)
      → row_of sys ≡ some started
      → let (after, run) = run_prepared env visit f stage bolt def fs role_error sys in
        row_of after ≡ some (row_left env run fs)
  unfolding run_prepared
  row-run_prepared visit (some e) sys at = row-cleared sys at
  row-run_prepared visit none sys at =
      let cleared : System = record sys { db = (delete_outcomes_for_phase sys.db f.id stage).0 } in
      let (after, end) =
        dispatch_attempts env.now visit f.id stage def.lead_agent max_retries 0 cleared in
      let h =
        dispatch_attempts-HasRowsOf env.now visit f.id stage def.lead_agent max_retries 0 cleared in
      row-after_dispatch visit after end
        (get_row-HasRowsOf cleared after f.id stage bolt h ∙ row-cleared sys at)

  row-run_started :
      (visit : Visit) (sys : System)
      → row_of sys ≡ some started
      → let (after, run) = run_started env visit f stage bolt def fs sys in
        row_of after ≡ some (row_left env run fs)
  unfolding run_started
  row-run_started visit sys at =
      row-run_prepared visit _ _ (get_row-when _ _ sys f.id stage bolt ∙ at)

  row-run_row :
      (visit : Visit) (sys : System)
      → row_of sys ≡ some fs
      → let (after, f', run) = run_row env visit f stage bolt def fs sys in
        row_of after ≡ some (row_left env run fs)
  unfolding run_row
  row-run_row visit sys at =
      let begun = start_stage env f stage bolt def fs sys in
      let h = ensure_spec_worktree-HasRowsOf visit.worktree f begun in
      row-run_started visit _ (get_row-HasRowsOf begun _ f.id stage bolt h ∙ row-start_stage sys at)

-- Whatever happens to a run of a stage that has a row, RunStage keeps the row's revision count but
-- for one revision more where the smoke check or the reviewer sent the stage back, and leaves the
-- row in the status that goes with what it returns: revising after those two, after an agent that
-- failed and for want of quota; awaiting approval after any other result; failed where the dispatch
-- broke; in progress, with nobody at work, where the role could not be loaded or the wait before
-- the retry was cancelled; and as it was for every other error.
pub run_stage-row :
    (env : Env) (visit : Visit) (f : Feature) (stage : String) (sys : System) (fs : FeatureStage)
    → get_feature_stage_row sys f.id stage (bolt_for f stage) ≡ some fs
    → let (after, f', run) = run_stage env visit f stage sys in
      get_feature_stage_row after f.id stage (bolt_for f stage) ≡ some (row_left env run fs)
unfolding run_stage run_with
run_stage-row env visit f stage sys fs at =
    elim (Option-cases (get_stage_definition sys.db stage)) [
      | inl absent ↦ rw (run_stage, absent) at
      | inr (def, there) ↦ elim (Bool-cases (is_per_bolt_stage stage && f.current_bolt == 0)) [
        | inl e ↦ rw (run_stage, there, e) at
        | inr e ↦
            rw (run_stage, there, e, at)
              (row-run_row env f stage (bolt_for f stage) def fs visit sys at)
      ]
    ]
