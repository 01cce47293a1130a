-- ===== src/Stage/Definitions/Phase0.antt =====
-- internal/stage/definitions.go: the stages of phase 0.
use devteam.Prelude.{[], ◌∷◌}
use devteam.Db.Types.{StageDefinition}
use devteam.Stage.Status.{phase_initialization}
use devteam.Stage.Scope.{cond_always, all_scope_names}

abbrev pub stage_0_1 : StageDefinition
stage_0_1 = record {
  id = "0.1";
  phase = phase_initialization;
  name = "Workspace Scaffold";
  description =
      "Bootstrap the workspace — scaffold the docs directory structure for the feature's intent records.";
  lead_agent = "orchestrator";
  supporting_agents = [];
  key_artifacts = "record-dir" ∷ [];
  condition = cond_always;
  scopes = all_scope_names;
  reviewer = "";
  sort_order = 1;
}

abbrev pub stage_0_2 : StageDefinition
stage_0_2 = record {
  id = "0.2";
  phase = phase_initialization;
  name = "Workspace Detection";
  description =
      "Detect the workspace state — scan for existing code, config files, package manifests, and git status.";
  lead_agent = "orchestrator";
  supporting_agents = [];
  key_artifacts = "workspace-state" ∷ [];
  condition = cond_always;
  scopes = all_scope_names;
  reviewer = "";
  sort_order = 2;
}

abbrev pub stage_0_3 : StageDefinition
stage_0_3 = record {
  id = "0.3";
  phase = phase_initialization;
  name = "State Initialization";
  description =
      "Initialize AIDLC state files — audit shards, workflow state, and feature tracking records.";
  lead_agent = "orchestrator";
  supporting_agents = [];
  key_artifacts = "aidlc-state" ∷ "audit-shards" ∷ [];
  condition = cond_always;
  scopes = all_scope_names;
  reviewer = "";
  sort_order = 3;
}
