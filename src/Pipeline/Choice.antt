-- ===== src/Pipeline/Choice.antt =====
-- internal/pipeline/advance.go: the choice among the stages that run once.
use mathlib.Core.List.{Memᴰ}
use devteam.Prelude.{
  All, Bool-cases, List, Option, Option-cases, String, [], arith, false, inl, inr, none, refl, some,
  sym, true, ◌≡◌, ◌∙◌, ◌≢◌, ◌⊎◌, ◌∷◌, ◌==◌, nat_eq, string_eq, text_eq,
}
use devteam.Stage.Status.{Status, index_iff, status_eq, not_started}
use devteam.Db.Types.{StageDefinition, FeatureStage, bolt_status_eq}
use devteam.Db.Stages.{is_per_bolt_stage, get_stage_definition, update_feature_stage}
use devteam.Db.Events.{record_audit_event}
use devteam.Pipeline.System.{System, Env, audit}
use devteam.Pipeline.Advance.{should_skip_stage, mark_skipped}
use devteam.Pipeline.Decide.{NextAction, finish, run_stage, linear}

-- A row among the feature's rows with the status.
pub record Row (stages : List FeatureStage) (st : Status) (s : FeatureStage) : Type 0 where
  pub listed : Memᴰ s stages
  pub stands : s.status ≡ st

Row-tail :
    {r s : FeatureStage} {stages : List FeatureStage} {st : Status}
    → Row stages st s
    → Row (r ∷ stages) st s
Row-tail row = record { listed = Memᴰ.tail row.listed; stands = row.stands }

-- The stage is defined and out of the scope.
abbrev pub IsOut : (String → Option StageDefinition) → String → String → Type 0
IsOut look scope id =
    (def : StageDefinition) × (look id ≡ some def) × (should_skip_stage scope def ≡ true)

-- The stage has no definition, or is in the scope.
abbrev pub IsIn : (String → Option StageDefinition) → String → String → Type 0
IsIn look scope id =
    (look id ≡ none)
    ⊎ (def : StageDefinition) × (look id ≡ some def) × (should_skip_stage scope def ≡ false)

-- Nothing linear is left to run for the row.
abbrev pub IsSettled : (String → Option StageDefinition) → String → FeatureStage → Type 0
IsSettled look scope s =
    (s.status ≢ not_started) ⊎ (is_per_bolt_stage s.stage_id ≡ true) ⊎ IsOut look scope s.stage_id

module _ (look : String → Option StageDefinition) (scope : String)
    (stages : List FeatureStage) where
  abbrev pub IsLinear : NextAction → Type 0
  IsLinear finish = All (IsSettled look scope) stages
  IsLinear (run_stage id) =
      (s : FeatureStage) × Row stages not_started s
      × (id ≡ s.stage_id)
      × (is_per_bolt_stage id ≡ false)
      × IsIn look scope id
  IsLinear _ = ⊥

mark_skipped-definition :
    (env : Env) (f scope stage phase : String) (sys : System) (id : String)
    → get_stage_definition (mark_skipped env f scope stage phase sys).db id
      ≡ get_stage_definition sys.db id
unfolding mark_skipped get_stage_definition audit record_audit_event update_feature_stage
mark_skipped-definition env f scope stage phase sys id = ground arith

IsLinear-cons :
    (look : String → Option StageDefinition) (scope : String) (r : FeatureStage)
    (rs : List FeatureStage) (a : NextAction)
    → IsSettled look scope r
    → IsLinear look scope rs a
    → IsLinear look scope (r ∷ rs) a
IsLinear-cons look scope r rs finish h l = (h, l)
IsLinear-cons look scope r rs (run_stage id) h (s, row, e, linear_id, inside) =
    (s, Row-tail row, e, linear_id, inside)
IsLinear-cons look scope r rs _ h l = absurd l

not_equal : (a b : Status) → (a == b) ≡ false → a ≡ b → ⊥
not_equal a b h e = cc (h, (index_iff a b).1 e)

pub linear-IsLinear :
    (env : Env) (f scope : String) (look : String → Option StageDefinition)
    (stages : List FeatureStage) (sys : System)
    → ((id : String) → get_stage_definition sys.db id ≡ look id)
    → IsLinear look scope stages (linear env f scope stages sys).1
unfolding linear
linear-IsLinear env f scope look [] sys h = tt
linear-IsLinear env f scope look (r ∷ rs) sys h =
    let rest : IsLinear look scope rs (linear env f scope rs sys).1 =
      linear-IsLinear env f scope look rs sys h in
    elim (Bool-cases (r.status == not_started)) [
      | inr other ↦
          rw other
            (IsLinear-cons look scope r rs _ (inl (not_equal r.status not_started other)) rest)
      | inl waiting ↦ elim (Bool-cases (is_per_bolt_stage r.stage_id)) [
        | inl of_bolt ↦
            rw (waiting, of_bolt) (IsLinear-cons look scope r rs _ (inr (inl of_bolt)) rest)
        | inr shared ↦
            let row : Row (r ∷ rs) not_started r = record {
              listed = Memᴰ.head refl;
              stands = (index_iff r.status not_started).0 waiting;
            } in
            elim (Option-cases (get_stage_definition sys.db r.stage_id)) [
              | inl absent ↦
                  rw (waiting, shared, absent)
                    (r, row, refl, shared, inl (sym (h r.stage_id) ∙ absent))
              | inr (def, found) ↦ elim (Bool-cases (should_skip_stage scope def)) [
                | inr inside ↦
                    rw (waiting, shared, found, inside)
                      (r, row, refl, shared, inr (def, sym (h r.stage_id) ∙ found, inside))
                | inl out ↦
                    let later : System = mark_skipped env f scope r.stage_id def.phase sys in
                    rw (waiting, shared, found, out)
                      (IsLinear-cons look scope r rs _
                        (inr (inr (def, sym (h r.stage_id) ∙ found, out)))
                        (linear-IsLinear env f scope look rs later (λ id.
                          mark_skipped-definition env f scope r.stage_id def.phase sys id ∙ h id)))
              ]
            ]
      ]
    ]
