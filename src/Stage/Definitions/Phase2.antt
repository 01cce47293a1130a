-- ===== src/Stage/Definitions/Phase2.antt =====
-- internal/stage/definitions.go: the stages of phase 2.
use devteam.Prelude.{[], ◌∷◌}
use devteam.Db.Types.{StageDefinition}
use devteam.Stage.Status.{phase_inception}
use devteam.Stage.Scope.{
  cond_always, cond_conditional, cond_brownfield, cond_user_facing, cond_ui_project,
  scope_enterprise, scope_feature, scope_mvp, scope_poc, scope_bugfix, scope_refactor,
  scope_security_patch, scope_workshop, all_scope_names, all_minus,
}

abbrev pub stage_2_1 : StageDefinition
stage_2_1 = record {
  id = "2.1";
  phase = phase_inception;
  name = "Reverse Engineering";
  description =
      "Reverse-engineer existing codebase — the developer scans the code for patterns, dependencies, and architecture. The architect synthesizes findings. Only runs for brownfield projects.";
  lead_agent = "developer";
  supporting_agents = "architect" ∷ [];
  key_artifacts = "re-artifacts" ∷ [];
  condition = cond_brownfield;
  scopes = all_minus (scope_poc ∷ scope_bugfix ∷ []);
  reviewer = "";
  sort_order = 11;
}

abbrev pub stage_2_2 : StageDefinition
stage_2_2 = record {
  id = "2.2";
  phase = phase_inception;
  name = "Practices Discovery";
  description =
      "Discover team practices — scan CI configs, test conventions, code style, and deployment patterns. Promote discovered patterns to team rules.";
  lead_agent = "pipeline-deploy";
  supporting_agents = "quality" ∷ "developer" ∷ "devsecops" ∷ [];
  key_artifacts = "team-practices" ∷ "discovered-rules" ∷ "evidence" ∷ [];
  condition = cond_conditional;
  scopes = all_minus (scope_poc ∷ scope_bugfix ∷ scope_refactor ∷ scope_security_patch ∷ []);
  reviewer = "";
  sort_order = 12;
}

abbrev pub stage_2_3 : StageDefinition
stage_2_3 = record {
  id = "2.3";
  phase = phase_inception;
  name = "Requirements Analysis";
  description =
      "Analyze requirements — functional requirements (FRs), non-functional requirements (NFRs), and constraints. The product agent produces a structured requirements document.";
  lead_agent = "product";
  supporting_agents = [];
  key_artifacts = "requirements.md" ∷ [];
  condition = cond_always;
  scopes = all_scope_names;
  reviewer = "product-lead";
  sort_order = 13;
}

abbrev pub stage_2_4 : StageDefinition
stage_2_4 = record {
  id = "2.4";
  phase = phase_inception;
  name = "User Stories";
  description =
      "Write user stories — personas, jobs-to-be-done (JTBD), and story breakdown. The product agent translates requirements into actionable stories.";
  lead_agent = "product";
  supporting_agents = "design" ∷ [];
  key_artifacts = "stories.md" ∷ "personas.md" ∷ [];
  condition = cond_user_facing;
  scopes = scope_enterprise ∷ scope_feature ∷ scope_mvp ∷ scope_workshop ∷ [];
  reviewer = "product-lead";
  sort_order = 14;
}

abbrev pub stage_2_5 : StageDefinition
stage_2_5 = record {
  id = "2.5";
  phase = phase_inception;
  name = "Refined Mockups";
  description =
      "Refine mockups — hi-fi mockups, interaction specifications, and accessibility considerations. The design agent produces detailed UI specs.";
  lead_agent = "design";
  supporting_agents = "product" ∷ [];
  key_artifacts = "hi-fi-mockups" ∷ "interaction-spec" ∷ [];
  condition = cond_ui_project;
  scopes = scope_enterprise ∷ scope_feature ∷ scope_mvp ∷ scope_workshop ∷ [];
  reviewer = "product-lead";
  sort_order = 15;
}

abbrev pub stage_2_6 : StageDefinition
stage_2_6 = record {
  id = "2.6";
  phase = phase_inception;
  name = "Application Design";
  description =
      "Design the application — architecture, domain model, ADRs (architecture decision records), and technology choices. The architect produces the technical design.";
  lead_agent = "architect";
  supporting_agents = "platform" ∷ "design" ∷ [];
  key_artifacts = "app-design" ∷ "adrs" ∷ [];
  condition = cond_conditional;
  scopes = all_minus (scope_poc ∷ scope_bugfix ∷ scope_refactor ∷ []);
  reviewer = "architecture-reviewer";
  sort_order = 16;
}

abbrev pub stage_2_7 : StageDefinition
stage_2_7 = record {
  id = "2.7";
  phase = phase_inception;
  name = "Units Generation";
  description =
      "Generate units of work — decompose the design into implementation units, dependency DAG, and story-to-unit mapping. This is what Bolts are built from.";
  lead_agent = "architect";
  supporting_agents = "delivery" ∷ [];
  key_artifacts = "unit-of-work" ∷ "dependency-dag" ∷ "story-map" ∷ [];
  condition = cond_always;
  scopes = all_minus (scope_security_patch ∷ []);
  reviewer = "architecture-reviewer";
  sort_order = 17;
}

abbrev pub stage_2_8 : StageDefinition
stage_2_8 = record {
  id = "2.8";
  phase = phase_inception;
  name = "Delivery Planning";
  description =
      "Plan delivery — Bolt plan (sequencing), team allocation, risk and sequencing rationale, and external dependency map. This is the verification gate between inception and construction.";
  lead_agent = "delivery";
  supporting_agents = "architect" ∷ [];
  key_artifacts = "bolt-plan" ∷ "team-allocation" ∷ "risk-rationale" ∷ "external-dep-map" ∷ [];
  condition = cond_always;
  scopes = all_minus (scope_poc ∷ scope_bugfix ∷ scope_security_patch ∷ []);
  reviewer = "";
  sort_order = 18;
}
