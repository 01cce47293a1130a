-- ===== src/Examples/Data.antt =====
-- A feature of scope mvp in the table of all stages, with a few rows.
use devteam.Prelude.{List, String, [], codes, false, none, some, true, ℕ, ◌∷◌}
use devteam.Stage.Status.{Status, not_started, awaiting_approval, revising, failed}
use devteam.Stage.Definitions.{stage_definitions}
use devteam.Feature.Types.{Feature, draft, loose_idea}
use devteam.Db.Types.{FeatureStage, Database, BoltRow, BoltStatus}
use devteam.Pipeline.System.{System, Env}
use devteam.Pipeline.Review.{StageRunResult, agent_failed}

abbrev pub login : Feature
login = record {
  id = "login-1";
  title = "Login";
  status = draft;
  priority = 2;
  intake_path = loose_idea;
  spec_dir = "specs/login-1/";
  worktree_dir = "";
  created_at = 10;
  updated_at = 10;
  dependencies = [];
  repos = [];
  prepared_repos = [];
  scope = "mvp";
  depth = "standard";
  test_strategy = "standard";
  execution_mode = "guided";
  autonomy_mode = "";
  current_stage = "1.1";
  current_bolt = 0;
}

abbrev pub row : String → ℕ → Status → ℕ → FeatureStage
row stage bolt st n = record {
  feature_id = "login-1";
  stage_id = stage;
  bolt_number = bolt;
  status = st;
  revision_count = n;
  started_at = some 20;
  completed_at = none;
}

abbrev pub rows : List FeatureStage
rows =
    row "1.1" 0 awaiting_approval 1
    ∷ row "1.2" 0 failed 0
    ∷ row "1.3" 0 not_started 0
    ∷ row "3.1" 2 revising 0
    ∷ []

abbrev pub first_bolt : BoltRow
first_bolt = record {
  feature_id = "login-1";
  bolt_number = 1;
  unit_ids = codes "u1" ∷ [];
  depends_on = [];
  status = BoltStatus.pending;
  is_walking_skeleton = true;
  created_at = 30;
}

abbrev pub board : Database
board = record {
  up = true;
  features = [];
  stage_definitions = stage_definitions;
  feature_stages = rows;
  bolts = first_bolt ∷ [];
  outcomes = [];
  audit_events = [];
}

abbrev pub start : System
start = record { db = board; calls = [] }

abbrev pub clock : Env
clock = record { now = 50; has_sessions = true; authorized = some true; is_lost = λ n. false }

abbrev pub broken_run : StageRunResult
broken_run = record {
  stage_id = "1.1";
  phase = "ideation";
  stage_name = "Intent capture";
  bolt_number = 0;
  role_result = some (record { output = "log"; error = "exit 1"; success = false });
  smoke_failures = [];
  outcome = record {
    feature_id = "login-1";
    phase = "1.1";
    outcome = "failed";
    target = "";
    notes = "";
    created_at = 0;
  };
  reviewer_result = none;
  outcome_source = agent_failed;
  gate = none;
}
