-- ===== src/Pipeline/Advance.antt =====
-- internal/pipeline/stage_runner.go and state_machine.go: moving on to another stage.
use devteam.Prelude.{
  Bool, List, Option, String, [], false, none, not, some, ℕ, ◌||◌, ◌∷◌, ◌==◌, if◌then◌else◌, nat_eq,
  string_eq, text_eq,
}
use devteam.Stage.Status.{Status, status_eq, not_started, skipped}
use devteam.Feature.Types.{Feature, done}
use devteam.Db.Types.{StageDefinition, FeatureStage, text, out_of_scope, auth_failed}
use devteam.Db.Stages.{
  is_per_bolt_stage, get_stage_definition, get_stages_for_scope, get_feature_stages,
  update_feature_stage,
}
use devteam.Pipeline.System.{
  broadcast, complete_phase_sessions, push_phase_changes, System, Env, call, audit, ◌▷◌,
  save_feature_state_row, get_feature, effective_scope, Error, no_stages, not_in_scope,
  unauthorized,
}

abbrev pub lists_scope : String → List String → Bool
lists_scope scope [] = false
lists_scope scope (sc ∷ scs) = sc == scope || sc == "all" || lists_scope scope scs

-- ShouldSkipStage reads the scope of the feature alone.
unfoldable pub should_skip_stage : String → StageDefinition → Bool
should_skip_stage scope s = not (lists_scope (effective_scope scope) s.scopes)

abbrev pub set_stage : String → String → Status → Option ℕ → System → System
set_stage f s st started sys = record sys {
  db = (update_feature_stage sys.db f s st 0 started none).0;
}

-- What AdvanceStage, NextStageToRun and decideNextAction do for a stage that is out of scope.
unfoldable pub mark_skipped : Env → String → String → String → String → System → System
unfolding audit
mark_skipped env f scope stage phase sys =
    sys
    ▷ set_stage f stage skipped (some env.now)
    ▷ audit f "STAGE_SKIPPED" stage phase (out_of_scope scope)
    ▷ call (broadcast f "stage_skipped" stage 0)

-- The loop over the stages behind the current one; `none` where it reaches their end.
unfoldable pub skip_stages :
    Env → Feature → List StageDefinition → System → System × Option StageDefinition
skip_stages env f [] sys = (sys, none)
skip_stages env f (n ∷ more) sys =
    let rest = skip_stages env f more (mark_skipped env f.id f.scope n.id n.phase sys) in
    if should_skip_stage f.scope n then rest else (sys, some n)

-- The stage of that id with the stages behind it.
abbrev pub from_stage :
    String → List StageDefinition → Option (StageDefinition × List StageDefinition)
from_stage id [] = none
from_stage id (s ∷ ss) = if s.id == id then some (s, ss) else from_stage id ss

unfoldable pub workflow_complete : Feature → String → System → System × Feature × Option Error
unfolding save_feature_state_row audit
workflow_complete f current sys =
    let f' = record f { status = done; current_stage = current } in
    (sys ▷ save_feature_state_row f' ▷ audit f.id "WORKFLOW_COMPLETE" "" "" (text ""), f', none)

-- The end of a phase: its sessions are completed, the authorization is checked, and the changes
-- are pushed (a failure of that is only logged).
unfoldable pub leave_phase :
    Env → Feature → StageDefinition → StageDefinition → System → System × Option Error
unfolding audit
leave_phase env f old new sys =
    let closed =
      if env.has_sessions then call (complete_phase_sessions f.id old.phase) sys else sys in
    let pushed = call (push_phase_changes f.id old.phase) closed in
    if old.phase == new.phase then (sys, none) else elim env.authorized [
      | none ↦ (pushed, none)
      | some healthy ↦ if healthy then (pushed, none) else (
        audit f.id "AUTH_HEALTH_FAILED" "" new.phase auth_failed closed,
        some (unauthorized old.phase new.phase),
      )
    ]

unfoldable pub move_to :
    Env → Feature → StageDefinition → StageDefinition → System → System × Feature × Option Error
unfolding save_feature_state_row leave_phase
move_to env f old new sys =
    let f' = record f { current_stage = new.id } in
    let (sys', err) = leave_phase env f' old new (
      sys
      ▷ save_feature_state_row f'
      ▷ set_stage f.id new.id not_started none
      ▷ audit f.id "STAGE_ADVANCED" new.id new.phase (text "")) in
    (sys', f', err)

unfoldable pub advance_stage : Env → Feature → String → System → System × Feature × Option Error
advance_stage env f current sys =
    let scope = effective_scope f.scope in
    elim (get_stages_for_scope sys.db scope) [
      | none ↦ (sys, f, some (no_stages scope))
      | some stages ↦ elim (from_stage current stages) [
        | none ↦ (sys, f, some (not_in_scope current scope))
        | some (old, rest) ↦
            let (sys', next) = skip_stages env f rest sys in
            elim next [
              | none ↦ workflow_complete f current sys'
              | some new ↦ move_to env f old new sys'
            ]
      ]
    ]

-- NextStageToRun over the rows of the feature; "" where no stage is left.
unfoldable pub next_among : Env → String → String → List FeatureStage → System → System × String
next_among env f scope [] sys = (sys, "")
next_among env f scope (r ∷ rs) sys =
    let rest = next_among env f scope rs sys in
    if is_per_bolt_stage r.stage_id
    then rest
    else if not (r.status == not_started)
    then rest
    else elim (get_stage_definition sys.db r.stage_id) [
      | none ↦ (sys, r.stage_id)
      | some def ↦
          let skipped_rest =
            next_among env f scope rs (mark_skipped env f scope r.stage_id def.phase sys) in
          if should_skip_stage scope def then skipped_rest else (sys, r.stage_id)
    ]

unfoldable pub next_stage_to_run : Env → String → System → System × String
next_stage_to_run env f sys = elim (get_feature_stages sys.db f) [
  | none ↦ (sys, "")
  | some rows ↦
      let scope : String = elim (get_feature sys f) [ none ↦ "" | some g ↦ g.scope ] in
      next_among env f scope rows sys
]
