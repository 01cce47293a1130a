-- ===== src/Pipeline/Unheard.antt =====
-- internal/pipeline/stage_runner.go with internal/api/agent_handlers.go: RunStage looks for the
-- agents' signals under the stage, and handleSignal stores them under the phase.
use devteam.Prelude.{
  Bool, Bool-cases, Option, Option-cases, String, arith, find-some, inl, inr, none, refl, some,
  string_eq, true, ℕ, ◌≡◌, ◌∙◌, ◌&&◌, ◌==◌, nat_eq, text_eq,
}
use devteam.Stage.Status.{Status}
use devteam.Feature.Types.{Feature}
use devteam.Db.Types.{Details, FeatureStage, StageDefinition}
use devteam.Db.Stages.{
  is_per_bolt_stage, get_stage_definition, update_feature_stage_for_bolt, update_feature_stage,
}
use devteam.Db.Events.{get_latest_outcome, record_audit_event}
use devteam.Db.Features.{save_feature_state, update_feature_status}
use devteam.Pipeline.System.{
  System, Env, Call, call, audit, get_feature_stage_row, update_feature_stage_row,
  save_feature_state_row,
}
use devteam.Pipeline.Agent.{Visit}
use devteam.Pipeline.Checks.{review_stage}
use devteam.Pipeline.Close.{start_stage, when}
use devteam.Pipeline.Run.{ensure_spec_worktree, run_started, run_row, run_with, run_stage, bolt_for}
use devteam.Pipeline.Signals.{is_unsignalled, HasOutcomesOf}
use devteam.Pipeline.Judged.{IsUnheard, run_prepared-IsUnheard}

update_row-HasOutcomesOf :
    (f s : String) (b : ℕ) (st : Status) (n : ℕ) (sa ca : Option ℕ) (sys : System) (g p : String)
    → HasOutcomesOf g p sys (update_feature_stage_row f s b st n sa ca sys)
unfolding update_feature_stage_row update_feature_stage_for_bolt update_feature_stage
    get_latest_outcome
update_row-HasOutcomesOf f s b st n sa ca sys g p = ground arith

audit-HasOutcomesOf :
    (f e s ph : String) (d : Details) (sys : System) (g p : String)
    → HasOutcomesOf g p sys (audit f e s ph d sys)
unfolding audit record_audit_event get_latest_outcome
audit-HasOutcomesOf f e s ph d sys g p = ground arith

when-HasOutcomesOf :
    (b : Bool) (c : Call) (sys : System) (g p : String)
    → HasOutcomesOf g p sys (when b (call c) sys)
when-HasOutcomesOf b c sys g p = elim (Bool-cases b) [ inl e ↦ rw e | inr e ↦ rw e ]

start_stage-HasOutcomesOf :
    (env : Env) (f : Feature) (stage : String) (bolt : ℕ) (def : StageDefinition)
    (fs : FeatureStage) (sys : System) (g p : String)
    → HasOutcomesOf g p sys (start_stage env f stage bolt def fs sys)
unfolding start_stage
start_stage-HasOutcomesOf env f stage bolt def fs sys g p =
    simp (when-HasOutcomesOf, audit-HasOutcomesOf, update_row-HasOutcomesOf)

ensure_spec_worktree-HasOutcomesOf :
    (dir : Option String) (f : Feature) (sys : System) (g p : String)
    → HasOutcomesOf g p sys (ensure_spec_worktree dir f sys).0
unfolding ensure_spec_worktree save_feature_state_row save_feature_state update_feature_status
    get_latest_outcome
ensure_spec_worktree-HasOutcomesOf none f sys g p = refl
ensure_spec_worktree-HasOutcomesOf (some dir) f sys g p = ground arith

run_row-IsUnheard :
    (env : Env) (visit : Visit) (f : Feature) (stage : String) (bolt : ℕ) (def : StageDefinition)
    (fs : FeatureStage) (sys : System)
    → is_unsignalled stage ≡ true
    → is_unsignalled (review_stage def.id) ≡ true
    → get_latest_outcome sys.db f.id (review_stage def.id) ≡ none
    → IsUnheard f stage (run_row env visit f stage bolt def fs sys).2
unfolding run_row run_started
run_row-IsUnheard env visit f stage bolt def fs sys u v e =
    let id = review_stage def.id in
    let begun = start_stage env f stage bolt def fs sys in
    let ready = (ensure_spec_worktree visit.worktree f begun).0 in
    run_prepared-IsUnheard env visit f stage bolt def fs v visit.role_error _ u (
      when-HasOutcomesOf _ _ ready f.id id
      ∙ ensure_spec_worktree-HasOutcomesOf visit.worktree f begun f.id id
      ∙ start_stage-HasOutcomesOf env f stage bolt def fs sys f.id id
      ∙ e)

found_id :
    (sys : System) (stage : String) (def : StageDefinition)
    → get_stage_definition sys.db stage ≡ some def
    → def.id ≡ stage
unfolding get_stage_definition
found_id sys stage def e = elim (Bool-cases sys.db.up) [
  | inr down ↦ absurd (ground arith)
  | inl up ↦
      (string_eq.beq_iff _ _).0
        (find-some (λ s. s.id == stage) sys.db.stage_definitions def (ground arith)).0
]

-- What the agents signal has no part in the result of RunStage. For a stage that is not named like
-- a phase, and a review with no outcome stored before: if RunStage returns a result, its outcome is
-- `failed` exactly if the agent's process failed and `pass` if not, whatever the agent posted; the
-- outcome's source is that of a failed or a silent agent, or the smoke check's, and never the
-- agent's signal or the reviewer's rejection. The gate of the result is open exactly when that source
-- does not send the stage back.
pub run_stage-IsUnheard :
    (env : Env) (visit : Visit) (f : Feature) (stage : String) (sys : System)
    → is_unsignalled stage ≡ true
    → is_unsignalled (review_stage stage) ≡ true
    → get_latest_outcome sys.db f.id (review_stage stage) ≡ none
    → IsUnheard f stage (run_stage env visit f stage sys).2
unfolding run_stage run_with
run_stage-IsUnheard env visit f stage sys u v e =
    elim (Option-cases (get_stage_definition sys.db stage)) [
      | inl absent ↦ rw (run_stage, absent) tt
      | inr (def, there) ↦
          let same = found_id sys stage def there in
          elim (Bool-cases (is_per_bolt_stage stage && f.current_bolt == 0)) [
            | inl unset ↦ rw (run_stage, there, unset) tt
            | inr set ↦
                elim (Option-cases (get_feature_stage_row sys f.id stage (bolt_for f stage))) [
                  | inl missing ↦ rw (run_stage, there, set, missing) tt
                  | inr (fs, at) ↦
                      rw (run_stage, there, set, at)
                        (run_row-IsUnheard env visit f stage (bolt_for f stage) def fs sys u
                          (rw same v) (rw same e))
                ]
          ]
    ]
