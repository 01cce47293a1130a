-- ===== src/Stage/Definitions/Phase4.antt =====
-- internal/stage/definitions.go: the stages of phase 4.
use devteam.Prelude.{[], ◌∷◌}
use devteam.Db.Types.{StageDefinition}
use devteam.Stage.Status.{phase_operation}
use devteam.Stage.Scope.{
  cond_conditional, scope_enterprise, scope_feature, scope_infra, scope_workshop,
}

abbrev pub stage_4_1 : StageDefinition
stage_4_1 = record {
  id = "4.1";
  phase = phase_operation;
  name = "Deployment Pipeline";
  description =
      "Deployment pipeline — CD configuration, deployment strategy (blue-green, canary, rolling), and rollback runbook.";
  lead_agent = "pipeline-deploy";
  supporting_agents = [];
  key_artifacts = "cd-config" ∷ "deploy-strategy" ∷ "rollback-runbook" ∷ [];
  condition = cond_conditional;
  scopes = scope_enterprise ∷ scope_feature ∷ scope_infra ∷ scope_workshop ∷ [];
  reviewer = "";
  sort_order = 26;
}

abbrev pub stage_4_2 : StageDefinition
stage_4_2 = record {
  id = "4.2";
  phase = phase_operation;
  name = "Environment Provisioning";
  description =
      "Environment provisioning — provision environments (dev, staging, prod), inventory, and validation report.";
  lead_agent = "platform";
  supporting_agents = "devsecops" ∷ [];
  key_artifacts = "env-inventory" ∷ "validation-report" ∷ [];
  condition = cond_conditional;
  scopes = scope_enterprise ∷ scope_feature ∷ [];
  reviewer = "";
  sort_order = 27;
}

abbrev pub stage_4_3 : StageDefinition
stage_4_3 = record {
  id = "4.3";
  phase = phase_operation;
  name = "Deployment Execution";
  description =
      "Deployment execution — deploy the code, run smoke tests, and verify health checks.";
  lead_agent = "pipeline-deploy";
  supporting_agents = "developer" ∷ [];
  key_artifacts = "deploy-log" ∷ "smoke-tests" ∷ "health-checks" ∷ [];
  condition = cond_conditional;
  scopes = scope_enterprise ∷ scope_feature ∷ scope_infra ∷ [];
  reviewer = "";
  sort_order = 28;
}

abbrev pub stage_4_4 : StageDefinition
stage_4_4 = record {
  id = "4.4";
  phase = phase_operation;
  name = "Observability Setup";
  description =
      "Observability setup — dashboards, alarms, and SLO configuration. The operations agent sets up monitoring.";
  lead_agent = "operations";
  supporting_agents = [];
  key_artifacts = "dashboards" ∷ "alarms" ∷ "slo-config" ∷ [];
  condition = cond_conditional;
  scopes = scope_enterprise ∷ scope_feature ∷ [];
  reviewer = "";
  sort_order = 29;
}

abbrev pub stage_4_5 : StageDefinition
stage_4_5 = record {
  id = "4.5";
  phase = phase_operation;
  name = "Incident Response";
  description =
      "Incident response — SSM runbooks, incident plan, and escalation matrix. Prepare for when things go wrong.";
  lead_agent = "operations";
  supporting_agents = [];
  key_artifacts = "runbooks" ∷ "incident-plan" ∷ "escalation-matrix" ∷ [];
  condition = cond_conditional;
  scopes = scope_enterprise ∷ scope_feature ∷ [];
  reviewer = "";
  sort_order = 30;
}

abbrev pub stage_4_6 : StageDefinition
stage_4_6 = record {
  id = "4.6";
  phase = phase_operation;
  name = "Performance Validation";
  description =
      "Performance validation — load test results and NFR validation matrix. Verify the system meets performance requirements.";
  lead_agent = "quality";
  supporting_agents = [];
  key_artifacts = "load-test-results" ∷ "nfr-validation-matrix" ∷ [];
  condition = cond_conditional;
  scopes = scope_enterprise ∷ scope_feature ∷ [];
  reviewer = "";
  sort_order = 31;
}

abbrev pub stage_4_7 : StageDefinition
stage_4_7 = record {
  id = "4.7";
  phase = phase_operation;
  name = "Feedback & Optimization";
  description =
      "Feedback and optimization — SLO report, cost analysis, and feedback loop document. The terminal stage — on approval, the workflow is complete.";
  lead_agent = "operations";
  supporting_agents = "platform" ∷ [];
  key_artifacts = "slo-report" ∷ "cost-analysis" ∷ "feedback-loop" ∷ [];
  condition = cond_conditional;
  scopes = scope_enterprise ∷ scope_feature ∷ [];
  reviewer = "";
  sort_order = 32;
}
