-- ===== src/Pipeline/Dispatches.antt =====
-- internal/pipeline/stage_runner.go: how many agents RunStage dispatches.
use devteam.Prelude.{
  Bool-cases, List, Option, Option-cases, String, [], arith, inl, inr, none, some, ℕ, ◌+◌, ◌≤◌, ◌≡◌,
  ◌∙◌, ◌&&◌, ◌||◌, ◌==◌, if◌then◌else◌, nat_eq, string_eq, text_eq,
}
use devteam.Stage.Status.{phase_construction, phase_operation}
use devteam.Feature.Types.{Feature}
use devteam.Db.Types.{FeatureStage, StageDefinition, OutcomeRow}
use devteam.Db.Stages.{is_per_bolt_stage, get_stage_definition}
use devteam.Db.Events.{get_latest_outcome, delete_outcomes_for_phase}
use devteam.Pipeline.System.{
  save_smoke_rule, prepare_impl_repos, System, Env, call, audit, get_feature_stage_row,
  save_feature_state_row,
}
use devteam.Pipeline.Review.{
  smoke_failed, RoleResult, ReviewerResult, OutcomeSource, reviewer_said_no,
}
use devteam.Pipeline.Agent.{
  Visit, Dispatched, finished, quota_hit, stopped, given_up, dispatch_attempts, max_retries,
}
use devteam.Pipeline.Checks.{
  dispatch_reviewer, record_review, is_not_ready, passed, read_outcome, stage_smoke_check,
  is_nonempty,
}
use devteam.Pipeline.Close.{
  when, sent_back, start_stage, send_back, await_approval, fail_stage, open_gate, close_stage,
}
use devteam.Pipeline.Run.{
  wants_review, ensure_spec_worktree, record_smoke, review_stage_run, judge, after_dispatch,
  run_prepared, run_started, run_row, run_with, run_stage, bolt_for,
}
use devteam.Pipeline.Counted.{
  dispatches, counted, add_none, dispatches-behind, dispatches-when, dispatches-dispatch_attempts,
  dispatches-dispatch_reviewer, dispatches-record_review,
}

module _ (env : Env) (f : Feature) (stage : String) (bolt : ℕ) (def : StageDefinition)
    (fs : FeatureStage) where
  dispatches-start_stage :
      (sys : System)
      → dispatches (start_stage env f stage bolt def fs sys).calls ≡ dispatches sys.calls
  unfolding start_stage audit
  dispatches-start_stage sys = elim (Bool-cases env.has_sessions) [
    | inl e ↦ rw e (simp counted)
    | inr e ↦ rw e (simp counted)
  ]

  dispatches-await_approval :
      (sys : System)
      → dispatches (await_approval env f stage bolt def fs sys).calls ≡ dispatches sys.calls
  unfolding await_approval audit
  dispatches-await_approval sys = elim (Bool-cases env.has_sessions) [
    | inl e ↦ rw e (simp counted)
    | inr e ↦ rw e (simp counted)
  ]

  dispatches-fail_stage :
      (rr : RoleResult) (sys : System)
      → dispatches (fail_stage env f stage bolt def fs rr sys).calls ≡ dispatches sys.calls
  unfolding fail_stage audit
  dispatches-fail_stage rr sys = simp counted

  dispatches-open_gate :
      (o : OutcomeRow) (rr : RoleResult) (sys : System)
      → dispatches (open_gate env f stage bolt def fs o rr sys).calls ≡ dispatches sys.calls
  unfolding open_gate
  dispatches-open_gate o rr sys =
      let awaiting = await_approval env f stage bolt def fs sys in
      dispatches-when (o.outcome == "failed") (fail_stage env f stage bolt def fs rr) awaiting
        (dispatches-fail_stage rr awaiting)
      ∙ dispatches-await_approval sys

  dispatches-send_back :
      (failures : List String) (sys : System)
      → dispatches (send_back env f stage bolt def fs failures sys).calls ≡ dispatches sys.calls
  unfolding send_back audit
  dispatches-send_back failures sys = simp counted

  dispatches-close_stage :
      (rr : RoleResult) (o : OutcomeRow) (failures : List String) (source : OutcomeSource)
      (rv : Option ReviewerResult) (sys : System)
      → dispatches (close_stage env f stage bolt def fs rr o failures source rv sys).0.calls
        ≡ dispatches sys.calls
  unfolding close_stage
  dispatches-close_stage rr o failures source rv sys = elim (Bool-cases (sent_back source)) [
    | inl e ↦ rw e (dispatches-behind _ _ ∙ add_none _ ∙ dispatches-send_back failures sys)
    | inr e ↦ rw e (dispatches-behind _ _ ∙ add_none _ ∙ dispatches-open_gate o rr sys)
  ]

  dispatches-review_stage_run :
      (visit : Visit) (rr : RoleResult) (o : OutcomeRow) (failures : List String)
      (source : OutcomeSource) (sys : System)
      → dispatches (review_stage_run env visit f stage bolt def fs rr o failures source sys).0.calls
        ≤ dispatches sys.calls + 1
  unfolding review_stage_run
  dispatches-review_stage_run visit rr o failures source sys =
      elim (Bool-cases (wants_review env visit f stage bolt def fs o failures)) [
        | inl e ↦
            let (after, rv) = dispatch_reviewer env.now visit f def sys in
            let source' = if is_not_ready rv then reviewer_said_no else source in
            let told = record_review f def rv after in
            rw e (
              omega (
                arith,
                dispatches-dispatch_reviewer env.now visit f def sys,
                dispatches-record_review f def rv after,
                dispatches-close_stage rr o failures source' rv told,
              ))
        | inr e ↦ rw e (omega (arith, dispatches-close_stage rr o failures source none sys))
      ]

  dispatches-judge :
      (visit : Visit) (rr : RoleResult) (o : OutcomeRow × OutcomeSource) (sys : System)
      → dispatches (judge env visit f stage bolt def fs rr o sys).0.calls ≤ dispatches sys.calls + 1
  unfolding judge record_smoke
  dispatches-judge visit rr o sys =
      let failures = if passed o.0 then stage_smoke_check visit def else [] in
      let source = if is_nonempty failures then smoke_failed else o.1 in
      let smoked = record_smoke env visit f stage bolt def fs failures sys in
      let rule = save_smoke_rule f.id def.lead_agent stage failures in
      let quiet : dispatches smoked.calls ≡ dispatches sys.calls =
        dispatches-when (is_nonempty failures) (call rule) sys
          (dispatches-behind sys.calls rule ∙ add_none _) in
      omega (arith, quiet, dispatches-review_stage_run visit rr o.0 failures source smoked)

  dispatches-after_dispatch :
      (visit : Visit) (sys : System) (d : Dispatched)
      → dispatches (after_dispatch env visit f stage bolt def fs (sys, d)).0.calls
        ≤ dispatches sys.calls + 1
  unfolding after_dispatch audit
  dispatches-after_dispatch visit sys (finished rr) =
      dispatches-judge visit rr (read_outcome f stage rr (get_latest_outcome sys.db f.id stage)) sys
  dispatches-after_dispatch visit sys stopped = omega arith
  dispatches-after_dispatch visit sys (quota_hit err) = simp counted (omega arith)
  dispatches-after_dispatch visit sys (given_up err) = simp counted (omega arith)

  dispatches-run_prepared :
      (visit : Visit) (role_error : Option String) (sys : System)
      → dispatches (run_prepared env visit f stage bolt def fs role_error sys).0.calls
        ≤ dispatches sys.calls + 3
  unfolding run_prepared delete_outcomes_for_phase
  dispatches-run_prepared visit (some e) sys = omega arith
  dispatches-run_prepared visit none sys =
      let cleared : System = record sys { db = (delete_outcomes_for_phase sys.db f.id stage).0 } in
      let (after, end) =
        dispatch_attempts env.now visit f.id stage def.lead_agent max_retries 0 cleared in
      omega (
        arith,
        dispatches-dispatch_attempts env.now visit f.id stage def.lead_agent max_retries 0 cleared,
        dispatches-after_dispatch visit after end,
      )

  dispatches-run_row :
      (visit : Visit) (sys : System)
      → dispatches (run_row env visit f stage bolt def fs sys).0.calls ≤ dispatches sys.calls + 3
  unfolding run_row run_started ensure_spec_worktree save_feature_state_row
  dispatches-run_row visit sys =
      let begun = start_stage env f stage bolt def fs sys in
      let (ready, f') = ensure_spec_worktree visit.worktree f begun in
      let made : dispatches ready.calls ≡ dispatches begun.calls =
        elim (Option-cases visit.worktree) [
          | inl e ↦ rw (ensure_spec_worktree, e)
          | inr (d, e) ↦ rw (ensure_spec_worktree, e)
        ] in
      let in_repos = def.phase == phase_construction || def.phase == phase_operation in
      let prepared = when in_repos (call (prepare_impl_repos f.id)) ready in
      let quiet : dispatches prepared.calls ≡ dispatches ready.calls =
        dispatches-when in_repos (call (prepare_impl_repos f.id)) ready
          (dispatches-behind ready.calls (prepare_impl_repos f.id) ∙ add_none _) in
      omega (
        arith,
        dispatches-start_stage sys,
        made,
        quiet,
        dispatches-run_prepared visit visit.role_error prepared,
      )

-- One call of RunStage dispatches agents at most three times, whatever errors come back.
pub dispatches-run_stage :
    (env : Env) (visit : Visit) (f : Feature) (stage : String) (sys : System)
    → dispatches (run_stage env visit f stage sys).0.calls ≤ dispatches sys.calls + 3
unfolding run_stage run_with
dispatches-run_stage env visit f stage sys =
    elim (Option-cases (get_stage_definition sys.db stage)) [
      | inl absent ↦ rw (run_stage, absent) (omega arith)
      | inr (def, there) ↦ elim (Bool-cases (is_per_bolt_stage stage && f.current_bolt == 0)) [
        | inl unset ↦ rw (run_stage, there, unset) (omega arith)
        | inr set ↦ elim (Option-cases (get_feature_stage_row sys f.id stage (bolt_for f stage))) [
          | inl missing ↦ rw (run_stage, there, set, missing) (omega arith)
          | inr (fs, at) ↦
              rw (run_stage, there, set, at)
                (dispatches-run_row env f stage (bolt_for f stage) def fs visit sys)
        ]
      ]
    ]
