-- ===== src/Pipeline/Unplanned.antt =====
-- internal/pipeline/advance.go with internal/stage/definitions.go: the scopes without delivery
-- planning.
use devteam.Prelude.{
  All, Bool, Bool-cases, List, String, [], any, ap, arith, elem, false, inl, inr, refl, string_eq,
  sym, true, ◌≡◌, ◌∙◌, ◌≢◌, ◌&&◌, ◌∷◌, ◌==◌, nat_eq, text_eq,
}
use devteam.Stage.Status.{status_eq}
use devteam.Stage.Scope.{scope_poc, scope_bugfix, scope_security_patch}
use devteam.Stage.Definitions.{stage_definitions}
use devteam.Feature.Types.{Feature}
use devteam.Db.Types.{FeatureStage}
use devteam.Db.Stages.{in_scope}
use devteam.Pipeline.System.{System, Env, effective_scope}
use devteam.Pipeline.Decide.{NextAction, prepare_bolts, is_completed_stage, decide_next_action}
use devteam.Pipeline.Reasons.{IsJustified, decide_next_action-IsJustified}

-- A stage of the table that is in the scope.
abbrev pub lists_stage : String → String → Bool
lists_stage scope id = any (λ d. d.id == id && in_scope scope d) stage_definitions

abbrev pub unplanned_scopes : List String
unplanned_scopes = scope_poc ∷ scope_bugfix ∷ scope_security_patch ∷ []

-- Code generation is in the scope, delivery planning is not.
abbrev LacksPlanning : String → Type 0
LacksPlanning scope = (lists_stage scope "3.5" ≡ true) × (lists_stage scope "2.8" ≡ false)

unplanned-LacksPlanning :
    (scope : String) → elem scope unplanned_scopes ≡ true → LacksPlanning scope
unplanned-LacksPlanning scope h = elim (Bool-cases (scope_poc == scope)) [
  | inl e ↦ rw (sym ((string_eq.beq_iff scope_poc scope).0 e)) (refl, refl)
  | inr other ↦ elim (Bool-cases (scope_bugfix == scope)) [
    | inl e ↦ rw (sym ((string_eq.beq_iff scope_bugfix scope).0 e)) (refl, refl)
    | inr neither ↦
        let e : (scope_security_patch == scope) ≡ true = ground (arith, h, other, neither) in
        rw (sym ((string_eq.beq_iff scope_security_patch scope).0 e)) (refl, refl)
  ]
]

-- No row of stage 2.8 is among rows of the scope's stages.
no_planning_row :
    (scope : String) (stages : List FeatureStage)
    → lists_stage scope "2.8" ≡ false
    → All (λ s. lists_stage scope s.stage_id ≡ true) stages
    → any (is_completed_stage "2.8") stages ≡ false
no_planning_row scope [] out h = refl
no_planning_row scope (s ∷ ss) out (h, hs) = elim (Bool-cases (s.stage_id == "2.8")) [
  | inl here ↦
      let same = (string_eq.beq_iff s.stage_id "2.8").0 here in
      let listed : lists_stage scope "2.8" ≡ true = ap (lists_stage scope) (sym same) ∙ h in
      absurd (cc (listed, out))
  | inr other ↦ rw (other, no_planning_row scope ss out hs) refl
]

not_prepare :
    (sys : System) (f : Feature) (stages : List FeatureStage) (mode : String) (a : NextAction)
    → any (is_completed_stage "2.8") stages ≡ false
    → IsJustified sys f stages mode a
    → a ≢ prepare_bolts
not_prepare sys f stages mode prepare_bolts open_28 (q, done_28, e) =
    absurd (ground (arith, open_28, done_28))
not_prepare sys f stages mode a open_28 j = λ e. cc e

-- In the scopes poc, bugfix and security-patch code generation (3.5) is among the stages of the
-- table but delivery planning (2.8) is not, and for a feature of such a scope whose rows are of
-- stages in the scope decideNextAction never chooses to prepare bolts.
pub decide_next_action-unplanned :
    (env : Env) (f : Feature) (stages : List FeatureStage) (mode : String) (sys : System)
    → elem (effective_scope f.scope) unplanned_scopes ≡ true
    → All (λ s. lists_stage (effective_scope f.scope) s.stage_id ≡ true) stages
    → (lists_stage (effective_scope f.scope) "3.5" ≡ true)
      × ((decide_next_action env f stages mode sys).1 ≢ prepare_bolts)
decide_next_action-unplanned env f stages mode sys h rows =
    let scope = effective_scope f.scope in
    let (coded, out) = unplanned-LacksPlanning scope h in
    (
      coded,
      not_prepare sys f stages mode _ (no_planning_row scope stages out rows)
          (decide_next_action-IsJustified env f stages mode sys),
    )
