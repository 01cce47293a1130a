-- ===== src/Pipeline/System.antt =====
-- internal/pipeline: the state that the pipeline works on, and its small helpers.
-- The database is set (the source's `database required` cannot come up). Messages made by
-- fmt.Sprintf are kept as their format and arguments. Calls that leave this state, to the event
-- stream, the terminal sessions, the git remotes and the note and rule tables, are recorded in
-- order in `calls`.
use devteam.Prelude.{
  Bool, List, Option, String, [], ltb, ℕ, ◌∷◌, ◌++◌, ◌==◌, if◌then◌else◌, nat_eq, string_eq,
  text_eq,
}
use devteam.Stage.Status.{Status}
use devteam.Feature.Types.{Feature}
use devteam.Feature.Phase.{current_phase_legacy}
use devteam.Db.Types.{Details, FeatureStage, Database}
use devteam.Db.Stages.{
  get_feature_stage_for_bolt, get_feature_stage, update_feature_stage_for_bolt,
  update_feature_stage,
}
use devteam.Db.Features.{save_feature_state, load_feature_state, update_feature_status}
use devteam.Db.Events.{record_audit_event}

-- A call out of the modelled state.
pub data Call : Type 0 where
  broadcast : (feature_id event stage_id : String) (bolt : ℕ) → Call
  save_stage_log : (feature_id stage_id : String) (bolt : ℕ) (name output : String) → Call
  add_note : (feature_id stage_id role kind text : String) → Call
  save_rule : (feature_id role stage_id text : String) → Call
  complete_phase_sessions : (feature_id phase : String) → Call
  push_phase_changes : (feature_id phase : String) → Call
  set_session_running : (feature_id phase : String) (bolt : ℕ) (stage_id role : String) → Call
  set_session_awaiting_gate : (feature_id phase : String) (bolt : ℕ) (stage_id : String) → Call
  prepare_impl_repos : (feature_id : String) → Call
  dispatch_agent : (feature_id stage_id role : String) → Call
  dispatch_human_proxy : (feature_id phase : String) → Call
  save_smoke_rule : (feature_id role stage_id : String) (failures : List String) → Call
  record_event : (feature_id event phase details : String) → Call
  kill_session : (feature_id phase : String) (bolt : ℕ) → Call
  send_continue : (feature_id phase : String) (bolt : ℕ) → Call

pub record System : Type 0 where
  pub db : Database
  pub calls : List Call

-- What an operation reads of the world: the clock, whether sessions are managed, and the answer of
-- the GitHub authorization check (`none` where no client is configured).
pub record Env : Type 0 where
  pub now : ℕ
  pub has_sessions : Bool
  pub authorized : Option Bool
  -- Whether the connection fails at the insertion of a bolt, by its number.
  pub is_lost : ℕ → Bool

infixl 3 ◌▷◌
abbrev pub ◌▷◌ {ℓ κ} : {A : Type ℓ} {B : Type κ} → A → (A → B) → B
a ▷ f = f a

abbrev pub call : Call → System → System
call c sys = record sys { calls = sys.calls ++ c ∷ [] }

unfoldable pub audit : String → String → String → String → Details → System → System
audit f event stage phase details sys = record sys {
  db = record_audit_event sys.db f event stage phase details;
}

unfoldable pub get_feature_stage_row : System → String → String → ℕ → Option FeatureStage
get_feature_stage_row sys f s bolt =
    if ltb 0 bolt then get_feature_stage_for_bolt sys.db f s bolt else get_feature_stage sys.db f s

unfoldable pub update_feature_stage_row :
    String → String → ℕ → Status → ℕ → Option ℕ → Option ℕ → System → System
update_feature_stage_row f s bolt st n started completed sys =
    if ltb 0 bolt
    then record sys {
      db = (update_feature_stage_for_bolt sys.db f s bolt st n started completed).0;
    }
    else record sys { db = (update_feature_stage sys.db f s st n started completed).0 }

unfoldable pub save_feature_state_row : Feature → System → System
save_feature_state_row f sys = record sys {
  db =
      (update_feature_status (save_feature_state sys.db f).0 f.id f.status
        (current_phase_legacy f)).0;
}

abbrev pub get_feature : System → String → Option Feature
get_feature sys id = load_feature_state sys.db id

-- The execution modes; an empty text means human.
abbrev pub execution_human : String
execution_human = "human"

abbrev pub execution_guided : String
execution_guided = "guided"

abbrev pub execution_autonomous : String
execution_autonomous = "autonomous"

abbrev pub effective_mode : String → String
effective_mode mode = if mode == "" then execution_human else mode

abbrev pub effective_scope : String → String
effective_scope scope = if scope == "" then "feature" else scope

-- What the operations return as an `error`.
pub data Error : Type 0 where
  stage_not_found : String → ℕ → Error
  wrong_state : String → ℕ → Status → Error
  reviewer_rejected : String → Error
  no_definition : String → Error
  no_stages : String → Error
  not_in_scope : String → String → Error
  too_few_revisions : ℕ → ℕ → Error
  unauthorized : String → String → Error
  phase_not_found : String → String → Error
  creating_bolt : ℕ → Error
  no_current_bolt : String → Error
  not_initialized : String → ℕ → Error
  role_not_loaded : String → String → Error
  quota_exhausted : String → String → Error
  -- No error of the source: the operation has not returned yet.
  still_waiting : Error
  wait_cancelled : Error
  getting_bolts : Error
  bolt_not_found : ℕ → Error
  init_bolt_stages_failed : ℕ → Error
  invalid_autonomy_mode : String → Error
  no_bolts : Error
  feature_not_loaded : String → Error
  ladder_not_resolved : String → Error
  stages_not_loaded : String → Error
  dispatch_failed : String → String → String → Error
