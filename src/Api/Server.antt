-- ===== src/Api/Server.antt =====
-- internal/api/server.go and stage_handlers.go: the state of the server, and the features it works
-- on. `active` has the keys of the sync.Map; `workers` has the goroutines that run, each for one
-- feature. A handler is one step, and answers with an HTTP status and the name of the error or of
-- what was done. The server has a database.
use devteam.Prelude.{
  Bool, List, String, elem, keep, ltb, not, ℕ, ◌&&◌, ◌||◌, ◌∷◌, ◌==◌, if◌then◌else◌, nat_eq,
  string_eq, text_eq,
}
use devteam.Feature.Types.{Feature}
use devteam.Stage.Status.{phase_construction}
use devteam.Db.Types.{StageDefinition}
use devteam.Pipeline.System.{System}

-- What a goroutine does: advanceFeature, the body of runBolt, or that of resumeStage, which first
-- waits for the session of the stage if that is alive.
pub data Task : Type 0 where
  advance : Task
  bolt_task : Feature → ℕ → Task
  resume_task : String → StageDefinition → ℕ → Bool → Task

pub record Worker : Type 0 where
  pub feature_id : String
  pub task : Task

pub record Server : Type 0 where
  pub sys : System
  pub active : List String
  pub workers : List Worker

pub record Response : Type 0 where
  pub status : ℕ
  pub text : String

abbrev pub answer : ℕ → String → Response
answer status text = record { status = status; text = text }

abbrev pub feature_not_found : Response
feature_not_found = answer 404 "feature_not_found"

abbrev pub already_running : Response
already_running = answer 409 "feature already running"

abbrev pub with_sys : System → Server → Server
with_sys sys s = record s { sys = sys }

unfoldable pub is_feature_active : Server → String → Bool
is_feature_active s id = elem id s.active

unfoldable pub mark_feature_active : String → Server → Server
mark_feature_active id s = if elem id s.active then s else record s { active = id ∷ s.active }

unfoldable pub unmark_feature_active : String → Server → Server
unmark_feature_active id s = record s { active = keep (λ a. not (a == id)) s.active }

-- The `go` statement.
unfoldable pub spawn : String → Task → Server → Server
spawn id task s = record s { workers = record { feature_id = id; task = task } ∷ s.workers }

abbrev is_per_bolt_stage_api : String → Bool
is_per_bolt_stage_api id = id == "3.1" || id == "3.2" || id == "3.3" || id == "3.4" || id == "3.5"

abbrev pub resolve_bolt_number_for_stage : Feature → String → ℕ
resolve_bolt_number_for_stage f stage = if is_per_bolt_stage_api stage then f.current_bolt else 0

-- The bolt that scopes the session of a stage.
abbrev pub session_bolt_of : Feature → StageDefinition → ℕ
session_bolt_of f def =
    if def.phase == phase_construction && ltb 0 f.current_bolt then f.current_bolt else 0

-- The modes in which the pipeline goes on by itself.
abbrev pub goes_on : String → Bool
goes_on mode = mode == "autonomous" || mode == "guided"

-- A feature that is not active is marked and a goroutine advances it.
unfoldable pub advance_unless_active : String → Server → Server
unfolding mark_feature_active spawn is_feature_active
advance_unless_active id s =
    if is_feature_active s id then s else spawn id advance (mark_feature_active id s)
