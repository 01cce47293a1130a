-- ===== src/Stage/Definitions/Phase3.antt =====
-- internal/stage/definitions.go: the stages of phase 3.
use devteam.Prelude.{[], ◌∷◌}
use devteam.Db.Types.{StageDefinition}
use devteam.Stage.Status.{phase_construction}
use devteam.Stage.Scope.{
  cond_per_bolt, cond_once_at_end, scope_enterprise, scope_feature, scope_poc, scope_bugfix,
  scope_refactor, scope_infra, scope_security_patch, scope_workshop, all_scope_names, all_minus,
}

abbrev pub stage_3_1 : StageDefinition
stage_3_1 = record {
  id = "3.1";
  phase = phase_construction;
  name = "Functional Design";
  description =
      "Functional design — business logic model, business rules, and domain contracts for the Bolt. The architect designs the implementation approach.";
  lead_agent = "architect";
  supporting_agents = "developer" ∷ [];
  key_artifacts = "business-logic-model" ∷ "business-rules" ∷ [];
  condition = cond_per_bolt;
  scopes = all_minus (scope_poc ∷ scope_bugfix ∷ scope_infra ∷ []);
  reviewer = "architecture-reviewer";
  sort_order = 19;
}

abbrev pub stage_3_2 : StageDefinition
stage_3_2 = record {
  id = "3.2";
  phase = phase_construction;
  name = "NFR Requirements";
  description =
      "NFR requirements — security, performance, and reliability requirements specific to this Bolt. The architect with devsecops and quality input.";
  lead_agent = "architect";
  supporting_agents = "devsecops" ∷ "quality" ∷ [];
  key_artifacts = "security-nfrs" ∷ "performance-nfrs" ∷ "reliability-nfrs" ∷ [];
  condition = cond_per_bolt;
  scopes = all_minus (scope_poc ∷ scope_bugfix ∷ scope_refactor ∷ []);
  reviewer = "architecture-reviewer";
  sort_order = 20;
}

abbrev pub stage_3_3 : StageDefinition
stage_3_3 = record {
  id = "3.3";
  phase = phase_construction;
  name = "NFR Design";
  description =
      "NFR design — detailed design specifications for meeting non-functional requirements. Patterns, data structures, and algorithms.";
  lead_agent = "architect";
  supporting_agents = "platform" ∷ [];
  key_artifacts = "nfr-design-specs" ∷ [];
  condition = cond_per_bolt;
  scopes = all_minus (scope_poc ∷ scope_bugfix ∷ scope_refactor ∷ []);
  reviewer = "architecture-reviewer";
  sort_order = 21;
}

abbrev pub stage_3_4 : StageDefinition
stage_3_4 = record {
  id = "3.4";
  phase = phase_construction;
  name = "Infrastructure Design";
  description =
      "Infrastructure design — infrastructure specifications, IaC designs, and deployment topology for this Bolt.";
  lead_agent = "platform";
  supporting_agents = "devsecops" ∷ [];
  key_artifacts = "infra-specs" ∷ "iac-designs" ∷ [];
  condition = cond_per_bolt;
  scopes = all_minus (scope_poc ∷ scope_bugfix ∷ scope_refactor ∷ scope_security_patch ∷ []);
  reviewer = "architecture-reviewer";
  sort_order = 22;
}

abbrev pub stage_3_5 : StageDefinition
stage_3_5 = record {
  id = "3.5";
  phase = phase_construction;
  name = "Code Generation";
  description =
      "Code generation — the developer writes the actual code. This is where the implementation happens. Produces application code and code documentation.";
  lead_agent = "developer";
  supporting_agents = [];
  key_artifacts = "application-code" ∷ "code-docs" ∷ [];
  condition = cond_per_bolt;
  scopes = all_scope_names;
  reviewer = "architecture-reviewer";
  sort_order = 23;
}

abbrev pub stage_3_6 : StageDefinition
stage_3_6 = record {
  id = "3.6";
  phase = phase_construction;
  name = "Build and Test";
  description =
      "Build and test — compile, run tests, security scan, and quality gate. The quality agent verifies the code works and meets standards. Runs once across all Bolts.";
  lead_agent = "quality";
  supporting_agents = "devsecops" ∷ [];
  key_artifacts = "test-results" ∷ "quality-report" ∷ [];
  condition = cond_once_at_end;
  scopes = all_scope_names;
  reviewer = "";
  sort_order = 24;
}

abbrev pub stage_3_7 : StageDefinition
stage_3_7 = record {
  id = "3.7";
  phase = phase_construction;
  name = "CI Pipeline";
  description =
      "CI pipeline — configure CI/CD pipeline, quality gates, and automated checks. The pipeline-deploy agent sets up the build infrastructure.";
  lead_agent = "pipeline-deploy";
  supporting_agents = [];
  key_artifacts = "ci-config" ∷ "quality-gates" ∷ [];
  condition = cond_once_at_end;
  scopes = scope_enterprise ∷ scope_feature ∷ scope_infra ∷ scope_workshop ∷ [];
  reviewer = "";
  sort_order = 25;
}
