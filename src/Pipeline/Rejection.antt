-- ===== src/Pipeline/Rejection.antt =====
-- internal/pipeline/stage_runner.go: RejectStage and AcceptStageAsIs against the row that they read.
use devteam.Prelude.{
  Bool, Bool-cases, List, Option, Option-cases, String, [], ap, arith, false, inl, inr, length, ltb,
  none, refl, some, true, ℕ, ◌+◌, ◌<◌, ◌≡◌, ◌∙◌, ◌↔◌, ◌∷◌, if◌then◌else◌,
}
use devteam.Gate.{max_revisions}
use devteam.Stage.Status.{Status, status_eq, revising}
use devteam.Feature.Types.{Feature}
use devteam.Db.Types.{Details, StageDefinition, FeatureStage}
use devteam.Db.Stages.{written, is_per_bolt_stage, get_stages_for_scope, get_stage_definition}
use devteam.Db.Stages.{update_feature_stage_for_bolt, update_feature_stage}
use devteam.Db.Events.{record_audit_event}
use devteam.Pipeline.System.{
  Call, System, Env, effective_scope, get_feature_stage_row, call, audit, update_feature_stage_row,
  Error, wrong_state, too_few_revisions,
}
use devteam.Pipeline.Verdict.{
  can_review, revise, accept, reject_row, reject_stage, accept_row, accept_stage_as_is,
}
use devteam.Pipeline.Advance.{
  workflow_complete, leave_phase, move_to, from_stage, skip_stages, advance_stage,
}
use devteam.Pipeline.Rows.{get_row-update_self, untouched_rows}

-- A row sent back: one revision more, and no end.
abbrev pub rejected_row : FeatureStage → FeatureStage
rejected_row fs = written revising (fs.revision_count + 1) fs.started_at none fs

get_row-revise :
    (f : Feature) (stage : String) (bolt : ℕ) (notes : String) (fs : FeatureStage)
    (def : StageDefinition) (sys : System)
    → get_feature_stage_row sys f.id stage bolt ≡ some fs
    → get_feature_stage_row (revise f stage bolt notes fs def sys) f.id stage bolt
      ≡ some (rejected_row fs)
unfolding revise
get_row-revise f stage bolt notes fs def sys at = simp (untouched_rows, get_row-update_self, at)

definition-update :
    (f s : String) (b : ℕ) (st : Status) (n : ℕ) (sa ca : Option ℕ) (sys : System) (id : String)
    → get_stage_definition (update_feature_stage_row f s b st n sa ca sys).db id
      ≡ get_stage_definition sys.db id
unfolding update_feature_stage_row update_feature_stage_for_bolt update_feature_stage
    get_stage_definition
definition-update f s b st n sa ca sys id = ground arith

definition-audit :
    (sys : System) (g e t p : String) (d : Details) (id : String)
    → get_stage_definition (audit g e t p d sys).db id ≡ get_stage_definition sys.db id
unfolding audit record_audit_event get_stage_definition
definition-audit sys g e t p d id = ground arith

definition-call :
    (sys : System) (c : Call) (id : String)
    → get_stage_definition (call c sys).db id ≡ get_stage_definition sys.db id
definition-call sys c id = refl

get_definition-revise :
    (f : Feature) (stage : String) (bolt : ℕ) (notes : String) (fs : FeatureStage)
    (def : StageDefinition) (sys : System) (id : String)
    → get_stage_definition (revise f stage bolt notes fs def sys).db id
      ≡ get_stage_definition sys.db id
unfolding revise
get_definition-revise f stage bolt notes fs def sys id =
    simp (definition-audit, definition-call, definition-update)

module _ (f : Feature) (stage : String) (bolt : ℕ) where
  abbrev pub row_of : System → Option FeatureStage
  row_of sys = get_feature_stage_row sys f.id stage bolt

  -- What rejecting leaves: the row by its status, and the error.
  abbrev pub IsRejection : FeatureStage → System → System × Option Error → Type 0
  IsRejection fs sys (after, err) =
      (row_of after ≡ some (if can_review fs.status then rejected_row fs else fs))
      × (err ≡ (if can_review fs.status then none else some (wrong_state stage bolt fs.status)))

-- Of a stage that has a row and a definition, RejectStage sends the row back, with one revision
-- more and no end, and returns no error if the row awaits approval or is being revised; otherwise
-- it leaves the row as it is and returns the error that names the row's status.
pub reject_stage-IsRejection :
    (f : Feature) (stage : String) (bolt : ℕ) (notes : String) (sys : System) (fs : FeatureStage)
    (def : StageDefinition)
    → get_feature_stage_row sys f.id stage bolt ≡ some fs
    → get_stage_definition sys.db stage ≡ some def
    → IsRejection f stage bolt fs sys (reject_stage f stage bolt notes sys)
unfolding reject_stage reject_row
reject_stage-IsRejection f stage bolt notes sys fs def at defined =
    elim (Bool-cases (can_review fs.status)) [
      | inl ready ↦ rw (at, defined, ready) (get_row-revise f stage bolt notes fs def sys at, refl)
      | inr other ↦ rw (at, defined, other) (at, refl)
    ]

-- RejectStage once for each of the notes, whatever it returns.
unfoldable pub reject_all : Feature → String → ℕ → List String → System → System
reject_all f stage bolt [] sys = sys
reject_all f stage bolt (notes ∷ more) sys =
    reject_all f stage bolt more (reject_stage f stage bolt notes sys).0

-- A row after that many rejections.
abbrev after_rejections : List String → FeatureStage → FeatureStage
after_rejections [] fs = fs
after_rejections (n ∷ ns) fs = after_rejections ns (rejected_row fs)

revision_count-after_rejections :
    (ns : List String) (fs : FeatureStage)
    → (after_rejections ns fs).revision_count ≡ fs.revision_count + length ns
revision_count-after_rejections [] fs = omega arith
revision_count-after_rejections (n ∷ ns) fs =
    revision_count-after_rejections ns (rejected_row fs) ∙ omega arith

get_row-reject_all :
    (f : Feature) (stage : String) (bolt : ℕ) (ns : List String) (sys : System) (fs : FeatureStage)
    (def : StageDefinition)
    → get_feature_stage_row sys f.id stage bolt ≡ some fs
    → get_stage_definition sys.db stage ≡ some def
    → can_review fs.status ≡ true
    → get_feature_stage_row (reject_all f stage bolt ns sys) f.id stage bolt
      ≡ some (after_rejections ns fs)
unfolding reject_all reject_stage reject_row
get_row-reject_all f stage bolt [] sys fs def at defined ready = at
get_row-reject_all f stage bolt (n ∷ ns) sys fs def at defined ready =
    rw (at, defined, ready)
      (get_row-reject_all f stage bolt ns (revise f stage bolt n fs def sys) (rejected_row fs) def
        (get_row-revise f stage bolt n fs def sys at)
        (get_definition-revise f stage bolt n fs def sys stage ∙ defined) refl)

abbrev is_too_few : Option Error → Bool
is_too_few (some (too_few_revisions n m)) = true
is_too_few _ = false

leave_phase_not_too_few :
    (env : Env) (f : Feature) (old new : StageDefinition) (sys : System)
    → is_too_few (leave_phase env f old new sys).1 ≡ false
unfolding leave_phase
leave_phase_not_too_few env f old new sys = ground arith

advance_stage_not_too_few :
    (env : Env) (f : Feature) (stage : String) (sys : System)
    → is_too_few (advance_stage env f stage sys).2 ≡ false
unfolding advance_stage workflow_complete move_to
advance_stage_not_too_few env f stage sys =
    elim (Option-cases (get_stages_for_scope sys.db (effective_scope f.scope))) [
      | inl e ↦ rw (is_too_few, e) refl
      | inr (stages, e) ↦ elim (Option-cases (from_stage stage stages)) [
        | inl n ↦ rw (is_too_few, e, n) refl
        | inr ((old, rest), n) ↦ elim (Option-cases (skip_stages env f rest sys).1) [
          | inl last ↦ rw (is_too_few, e, n, last) refl
          | inr (new, e_next) ↦
              rw (is_too_few, e, n, e_next)
                (leave_phase_not_too_few env (record f { current_stage = new.id }) old new _)
        ]
      ]
    ]

accept_row_too_few :
    (env : Env) (f : Feature) (stage : String) (bolt : ℕ) (fs : FeatureStage) (sys : System)
    → is_too_few (accept_row env f stage bolt (some fs) sys).2 ≡ ltb fs.revision_count max_revisions
unfolding accept_row
accept_row_too_few env f stage bolt fs sys = elim (Bool-cases (is_per_bolt_stage stage)) [
  | inl of_bolt ↦ rw of_bolt (ground arith)
  | inr shared ↦
      rw shared
        (ground (arith, advance_stage_not_too_few env f stage (accept env f.id stage bolt fs sys)))
]

accept_row_few :
    (env : Env) (f : Feature) (stage : String) (bolt : ℕ) (fs : FeatureStage) (sys : System)
    → ltb fs.revision_count max_revisions ≡ true
    → accept_row env f stage bolt (some fs) sys
      ≡ (sys, f, some (too_few_revisions max_revisions fs.revision_count))
unfolding accept_row
accept_row_few env f stage bolt fs sys few = rw few refl

-- However often a stage with a row under review and a definition is rejected, AcceptStageAsIs
-- refuses it for its number of revisions, with nothing changed, exactly as long as the revisions
-- that it had and the rejections are fewer than three.
pub reject_all-accept_stage_as_is :
    (env : Env) (f : Feature) (stage : String) (bolt : ℕ) (ns : List String) (sys : System)
    (fs : FeatureStage) (def : StageDefinition)
    → get_feature_stage_row sys f.id stage bolt ≡ some fs
    → get_stage_definition sys.db stage ≡ some def
    → can_review fs.status ≡ true
    → let sent_back = reject_all f stage bolt ns sys in
      let revisions = fs.revision_count + length ns in
      accept_stage_as_is env f stage bolt sent_back
        ≡ (sent_back, f, some (too_few_revisions max_revisions revisions))
      ↔ revisions < max_revisions
unfolding accept_stage_as_is
reject_all-accept_stage_as_is env f stage bolt ns sys fs def at defined ready =
    let sent_back = reject_all f stage bolt ns sys in
    let counted = revision_count-after_rejections ns fs in
    let few = accept_row_few env f stage bolt (after_rejections ns fs) sent_back in
    let too_few = accept_row_too_few env f stage bolt (after_rejections ns fs) sent_back in
    rw (get_row-reject_all f stage bolt ns sys fs def at defined ready) (
      (λ h. ground (arith, counted, too_few, ap (λ x. is_too_few x.2) h)),
      (λ h.
          few (ground (arith, counted, h))
          ∙ (λ i. (sent_back, f, some (too_few_revisions max_revisions (counted i))))),
    )
