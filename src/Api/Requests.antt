-- ===== src/Api/Requests.antt =====
-- internal/api/stage_handlers.go: the requests that change something, each with its handler. A body
-- that cannot be decoded is `none`.
use devteam.Prelude.{Bool, Option, String, Text, false, true, ℕ}
use devteam.Pipeline.System.{Env}
use devteam.Api.Server.{Server, Response}
use devteam.Api.Running.{run_stage, force_rerun_stage, resume_stage, run_bolt, run_construction}
use devteam.Api.Gates.{
  approve_stage, reject_stage, accept_stage_as_is, jump_to_stage, add_skipped_stage, prepare_bolts,
}
use devteam.Api.Settings.{
  set_scope, set_depth, set_test_strategy, set_ladder_mode, set_execution_mode,
}

pub data Request : Type 0 where
  run_stage_request : (id : String) (body : Option String) → Request
  force_rerun_request : (id stage : String) → Request
  resume_request : (id stage : String) (alive : Bool) → Request
  run_bolt_request : (id : String) (number : Option ℕ) → Request
  construction_request : (id : String) → Request
  approve_request accept_request : (id stage : String) → Request
  reject_request : (id stage : String) (body : Option String) → Request
  jump_request : (id : String) (body : Option (String × String)) → Request
  add_skipped_request : (id stage : String) → Request
  prepare_request : (id : String) (is_space : ℕ → Bool) (units dag : Option Text) → Request
  scope_request depth_request test_strategy_request : (id : String) (body : Option String) → Request
  ladder_request execution_mode_request : (id : String) (body : Option String) → Request

-- Each request as one step: the check whether the feature is worked on and the mark are not
-- interleaved with other requests. Running has the two apart.
unfoldable pub handle : Env → Request → Server → Server × Response
handle env (run_stage_request id body) s = run_stage id body s
handle env (force_rerun_request id stage) s = force_rerun_stage env id stage s
handle env (resume_request id stage alive) s = resume_stage id stage alive s
handle env (run_bolt_request id number) s = run_bolt id number s
handle env (construction_request id) s = run_construction id s
handle env (approve_request id stage) s = approve_stage env id stage s
handle env (accept_request id stage) s = accept_stage_as_is env id stage s
handle env (reject_request id stage body) s = reject_stage id stage body s
handle env (jump_request id body) s = jump_to_stage id body s
handle env (add_skipped_request id stage) s = add_skipped_stage id stage s
handle env (prepare_request id is_space units dag) s = prepare_bolts env is_space units dag id s
handle env (scope_request id body) s = set_scope id body s
handle env (depth_request id body) s = set_depth id body s
handle env (test_strategy_request id body) s = set_test_strategy id body s
handle env (ladder_request id body) s = set_ladder_mode id body s
handle env (execution_mode_request id body) s = set_execution_mode id body s

abbrev pub is_forced : Request → Bool
is_forced (force_rerun_request id stage) = true
is_forced _ = false

-- The requests that may be refused behind their first writes.
abbrev pub fails_late : Request → Bool
fails_late (approve_request id stage) = true
fails_late (accept_request id stage) = true
fails_late (prepare_request id is_space units dag) = true
fails_late _ = false
