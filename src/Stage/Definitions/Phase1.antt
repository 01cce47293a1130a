-- ===== src/Stage/Definitions/Phase1.antt =====
-- internal/stage/definitions.go: the stages of phase 1.
use devteam.Prelude.{[], ◌∷◌}
use devteam.Db.Types.{StageDefinition}
use devteam.Stage.Status.{phase_ideation}
use devteam.Stage.Scope.{
  cond_always, cond_conditional, scope_enterprise, scope_feature, scope_mvp, scope_infra,
  scope_security_patch, scope_workshop, all_scope_names,
}

abbrev pub stage_1_1 : StageDefinition
stage_1_1 = record {
  id = "1.1";
  phase = phase_ideation;
  name = "Intent Capture & Framing";
  description =
      "Capture and frame the product intent — who wants what and why, success criteria, stakeholders, and initial constraints. The product agent explores the idea and asks clarifying questions.";
  lead_agent = "product";
  supporting_agents = "architect" ∷ [];
  key_artifacts = "intent-statement" ∷ "stakeholder-map" ∷ [];
  condition = cond_always;
  scopes = all_scope_names;
  reviewer = "";
  sort_order = 4;
}

abbrev pub stage_1_2 : StageDefinition
stage_1_2 = record {
  id = "1.2";
  phase = phase_ideation;
  name = "Market Research";
  description =
      "Research the market — competitive analysis, build-vs-buy assessment, and reference architecture survey. Helps decide whether to build, buy, or integrate.";
  lead_agent = "product";
  supporting_agents = [];
  key_artifacts = "competitive-analysis" ∷ "build-vs-buy" ∷ [];
  condition = cond_conditional;
  scopes = scope_enterprise ∷ scope_feature ∷ scope_mvp ∷ scope_workshop ∷ [];
  reviewer = "";
  sort_order = 5;
}

abbrev pub stage_1_3 : StageDefinition
stage_1_3 = record {
  id = "1.3";
  phase = phase_ideation;
  name = "Feasibility & Constraints";
  description =
      "Assess feasibility and constraints — technical feasibility, platform constraints, security requirements, and risk/assumption/issues (RAID) log. The architect evaluates what's possible.";
  lead_agent = "architect";
  supporting_agents = "platform" ∷ "devsecops" ∷ [];
  key_artifacts = "feasibility-assessment" ∷ "constraint-register" ∷ "raid-log" ∷ [];
  condition = cond_conditional;
  scopes = scope_enterprise ∷ scope_feature ∷ scope_mvp ∷ scope_infra ∷ [];
  reviewer = "";
  sort_order = 6;
}

abbrev pub stage_1_4 : StageDefinition
stage_1_4 = record {
  id = "1.4";
  phase = phase_ideation;
  name = "Scope Definition";
  description =
      "Define scope boundaries — what's in, what's out, MoSCoW prioritization, MVP boundary, and the intent backlog. This is the decision point for what the feature will actually deliver.";
  lead_agent = "product";
  supporting_agents = "delivery" ∷ [];
  key_artifacts = "scope-definition" ∷ "intent-backlog" ∷ [];
  condition = cond_always;
  scopes = all_scope_names;
  reviewer = "";
  sort_order = 7;
}

abbrev pub stage_1_5 : StageDefinition
stage_1_5 = record {
  id = "1.5";
  phase = phase_ideation;
  name = "Team Formation";
  description =
      "Form the delivery team — assess team capabilities, plan mob composition, and assign agents to roles based on the scope and depth.";
  lead_agent = "delivery";
  supporting_agents = [];
  key_artifacts = "team-assessment" ∷ "mob-composition" ∷ [];
  condition = cond_conditional;
  scopes = scope_enterprise ∷ scope_feature ∷ scope_mvp ∷ [];
  reviewer = "";
  sort_order = 8;
}

abbrev pub stage_1_6 : StageDefinition
stage_1_6 = record {
  id = "1.6";
  phase = phase_ideation;
  name = "Rough Mockups";
  description =
      "Create rough mockups — wireframes, user flows, and a concept deck. The design agent visualizes the key interactions before detailed design.";
  lead_agent = "design";
  supporting_agents = "product" ∷ [];
  key_artifacts = "wireframes" ∷ "user-flows" ∷ "concept-deck" ∷ [];
  condition = cond_conditional;
  scopes = scope_enterprise ∷ scope_feature ∷ scope_mvp ∷ [];
  reviewer = "product-lead";
  sort_order = 9;
}

abbrev pub stage_1_7 : StageDefinition
stage_1_7 = record {
  id = "1.7";
  phase = phase_ideation;
  name = "Approval & Handoff";
  description =
      "Secure approval to proceed — compile the initiative brief, decision log, and handoff package. This is the verification gate between ideation and inception.";
  lead_agent = "delivery";
  supporting_agents = "product" ∷ [];
  key_artifacts = "initiative-brief" ∷ "decision-log" ∷ [];
  condition = cond_always;
  scopes =
      scope_enterprise ∷ scope_feature ∷ scope_infra ∷ scope_security_patch ∷ scope_workshop ∷ [];
  reviewer = "";
  sort_order = 10;
}
