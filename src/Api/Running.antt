-- ===== src/Api/Running.antt =====
-- internal/api/stage_handlers.go: the handlers that start work on a feature.
use devteam.Prelude.{
  Bool, List, Option, String, [], codes, false, ltb, none, not, some, true, ℕ, ◌∷◌, ◌==◌,
  if◌then◌else◌, nat_eq, string_eq, text_eq,
}
use devteam.Stage.Ids.{is_valid_stage_id}
use devteam.Stage.Status.{revising}
use devteam.Feature.Types.{Feature}
use devteam.Db.Types.{text, FeatureStage, StageDefinition}
use devteam.Db.Stages.{
  get_feature_stages, get_feature_stage, init_feature_stages, update_feature_stage,
  get_stage_definition,
}
use devteam.Pipeline.System.{
  System, Env, kill_session, call, audit, ◌▷◌, get_feature, effective_scope,
}
use devteam.Api.Server.{
  Server, Response, answer, feature_not_found, already_running, with_sys, Task, advance, bolt_task,
  resume_task, is_feature_active, mark_feature_active, unmark_feature_active, spawn,
  session_bolt_of,
}

abbrev has_rows : Option (List FeatureStage) → Bool
has_rows none = false
has_rows (some []) = false
has_rows (some (r ∷ rs)) = true

-- The rows of the feature's stages are made if there are none.
unfoldable pub ensure_stages : String → Feature → System → System
ensure_stages id f sys =
    if has_rows (get_feature_stages sys.db id)
    then sys
    else record sys { db = (init_feature_stages sys.db id (effective_scope f.scope)).0 }

unfoldable pub dispatch : String → Task → Server → Server
unfolding mark_feature_active spawn
dispatch id task s = spawn id task (mark_feature_active id s)

-- The stage that is asked for is only checked; the goroutine decides what to run.
-- `seen` is what the check whether the feature is worked on answered; handlers run at the same time,
-- and another may mark the feature behind it.
unfoldable pub run_stage_seen : Bool → String → Option String → Server → Server × Response
unfolding dispatch ensure_stages
run_stage_seen seen id body s = elim (get_feature s.sys id) [
  | none ↦ (s, feature_not_found)
  | some f ↦ elim body [
    | none ↦ (s, answer 400 "invalid JSON")
    | some stage ↦
        if stage == ""
        then (s, answer 400 "stage_id required")
        else if not (is_valid_stage_id (codes stage))
        then (s, answer 400 "invalid stage_id format")
        else if seen
        then (s, already_running)
        else (dispatch id advance (with_sys (ensure_stages id f s.sys) s), answer 202 "dispatched")
  ]
]

unfoldable pub run_stage : String → Option String → Server → Server × Response
unfolding run_stage_seen
run_stage id body s = run_stage_seen (is_feature_active s id) id body s

abbrev kill_stage_session : String → Feature → Option StageDefinition → System → System
kill_stage_session id f none sys = sys
kill_stage_session id f (some def) sys =
    call (kill_session id def.phase (session_bolt_of f def)) sys

abbrev mark_revising : Env → String → String → Option FeatureStage → System → System
mark_revising env id stage none sys = sys
mark_revising env id stage (some fs) sys =
    record sys {
      db = (update_feature_stage sys.db id stage revising fs.revision_count (some env.now) none).0;
    }
    ▷ audit id "STAGE_FORCE_RERUN" stage "" (text "user forced re-run (stuck in_progress)")

-- The session is killed, then the row of the stage is marked.
abbrev pub forced : Env → String → String → Feature → System → System
forced env id stage f sys =
    let killed = kill_stage_session id f (get_stage_definition sys.db stage) sys in
    mark_revising env id stage (get_feature_stage killed.db id stage) killed

-- The mark of the feature is taken away and set anew.
unfoldable pub force_rerun_stage : Env → String → String → Server → Server × Response
unfolding dispatch unmark_feature_active
force_rerun_stage env id stage s = elim (get_feature s.sys id) [
  | none ↦ (s, feature_not_found)
  | some f ↦
      let marked = with_sys (forced env id stage f s.sys) s in
      (dispatch id advance (unmark_feature_active id marked), answer 202 "force_rerun")
]

-- `alive` is whether the terminal session of the stage lives.
unfoldable pub resume_stage_seen : Bool → String → String → Bool → Server → Server × Response
unfolding dispatch
resume_stage_seen seen id stage alive s = elim (get_feature s.sys id) [
  | none ↦ (s, feature_not_found)
  | some f ↦ if seen then (s, already_running) else elim (get_stage_definition s.sys.db stage) [
    | none ↦ (s, answer 404 "stage_not_found")
    | some def ↦
        (dispatch id (resume_task stage def (session_bolt_of f def) alive) s, answer 202 "resumed")
  ]
]

unfoldable pub resume_stage : String → String → Bool → Server → Server × Response
unfolding resume_stage_seen
resume_stage id stage alive s = resume_stage_seen (is_feature_active s id) id stage alive s

-- What Sscanf reads of the path is `none` where it is no number or one below zero.
unfoldable pub run_bolt_seen : Bool → String → Option ℕ → Server → Server × Response
unfolding dispatch
run_bolt_seen seen id number s = elim (get_feature s.sys id) [
  | none ↦ (s, feature_not_found)
  | some f ↦ elim number [
    | none ↦ (s, answer 400 "invalid bolt number")
    | some n ↦
        if ltb n 1
        then (s, answer 400 "invalid bolt number")
        else if seen
        then (s, already_running)
        else (dispatch id (bolt_task f n) s, answer 202 "dispatched")
  ]
]

unfoldable pub run_bolt : String → Option ℕ → Server → Server × Response
unfolding run_bolt_seen
run_bolt id number s = run_bolt_seen (is_feature_active s id) id number s

-- A feature need not be there.
unfoldable pub run_construction_seen : Bool → String → Server → Server × Response
unfolding dispatch
run_construction_seen seen id s =
    if seen then (s, already_running) else (dispatch id advance s, answer 202 "dispatched")

unfoldable pub run_construction : String → Server → Server × Response
unfolding run_construction_seen
run_construction id s = run_construction_seen (is_feature_active s id) id s
