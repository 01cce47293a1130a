-- ===== src/Pipeline/Approval.antt =====
-- internal/pipeline/stage_runner.go: ApproveAndAdvance against the row that it reads.
use devteam.Prelude.{
  Bool-cases, List, Option, Option-cases, String, [], arith, false, inl, inr, none, refl, some, suc,
  true, ℕ, ◌≡◌, ◌∙◌, ◌⊎◌, ◌∷◌, ◌==◌, nat_eq, string_eq, text_eq,
}
use devteam.Stage.Status.{Status, status_eq, not_started, completed}
use devteam.Feature.Types.{Feature}
use devteam.Db.Types.{FeatureStage}
use devteam.Db.Stages.{written, is_per_bolt_stage, get_feature_stages, get_stage_definition}
use devteam.Pipeline.System.{System, Env, get_feature_stage_row, update_feature_stage_row}
use devteam.Pipeline.Verdict.{
  Approval, refused, can_review, is_recirculated, approve_row, approve_and_advance, complete_stage,
  next,
}
use devteam.Pipeline.Advance.{
  should_skip_stage, mark_skipped, set_stage, next_among, next_stage_to_run,
}
use devteam.Pipeline.Rows.{get_row-update, get_row-update_self, untouched_rows}

-- A row whose approval was given.
abbrev pub approved_row : Env → FeatureStage → FeatureStage
approved_row env fs = written completed fs.revision_count fs.started_at (some env.now) fs

get_row-set_stage :
    (f stage : String) (st : Status) (sa : Option ℕ) (sys : System) (g s : String) (b : ℕ)
    → get_feature_stage_row (set_stage f stage st sa sys) g s (suc b)
      ≡ get_feature_stage_row sys g s (suc b)
unfolding update_feature_stage_row
get_row-set_stage f stage st sa sys g s b =
    let updated = get_row-update sys f stage 0 g s (suc b) st 0 sa none in updated ∙ ground arith

get_row-mark_skipped :
    (env : Env) (f scope stage phase : String) (sys : System) (g s : String) (b : ℕ)
    → get_feature_stage_row (mark_skipped env f scope stage phase sys) g s (suc b)
      ≡ get_feature_stage_row sys g s (suc b)
unfolding mark_skipped
get_row-mark_skipped env f scope stage phase sys g s b = simp (untouched_rows, get_row-set_stage)

get_row-next_among :
    (env : Env) (f scope : String) (rows : List FeatureStage) (sys : System) (g s : String) (b : ℕ)
    → get_feature_stage_row (next_among env f scope rows sys).0 g s (suc b)
      ≡ get_feature_stage_row sys g s (suc b)
unfolding next_among
get_row-next_among env f scope [] sys g s b = refl
get_row-next_among env f scope (r ∷ rs) sys g s b =
    let rest = get_row-next_among env f scope rs sys g s b in
    elim (Bool-cases (is_per_bolt_stage r.stage_id)) [
      | inl of_bolt ↦ rw of_bolt rest
      | inr shared ↦ elim (Bool-cases (r.status == not_started)) [
        | inr begun ↦ rw (shared, begun) rest
        | inl waiting ↦ elim (Option-cases (get_stage_definition sys.db r.stage_id)) [
          | inl absent ↦ rw (shared, waiting, absent) refl
          | inr (def, found) ↦ elim (Bool-cases (should_skip_stage scope def)) [
            | inr inside ↦ rw (shared, waiting, found, inside) refl
            | inl out ↦
                let later = mark_skipped env f scope r.stage_id def.phase sys in
                rw (shared, waiting, found, out)
                  (get_row-next_among env f scope rs later g s b
                    ∙ get_row-mark_skipped env f scope r.stage_id def.phase sys g s b)
          ]
        ]
      ]
    ]

get_row-next_stage_to_run :
    (env : Env) (f : String) (sys : System) (g s : String) (b : ℕ)
    → get_feature_stage_row (next_stage_to_run env f sys).0 g s (suc b)
      ≡ get_feature_stage_row sys g s (suc b)
unfolding next_stage_to_run
get_row-next_stage_to_run env f sys g s b = elim (Option-cases (get_feature_stages sys.db f)) [
  | inl absent ↦ rw (next_stage_to_run, absent) refl
  | inr (rows, found) ↦ rw (next_stage_to_run, found) (get_row-next_among env f _ rows sys g s b)
]

get_row-complete_stage :
    (env : Env) (f stage : String) (bolt : ℕ) (fs : FeatureStage) (sys : System)
    → get_feature_stage_row sys f stage bolt ≡ some fs
    → get_feature_stage_row (complete_stage env f stage bolt fs sys) f stage bolt
      ≡ some (approved_row env fs)
unfolding complete_stage
get_row-complete_stage env f stage bolt fs sys at = simp (untouched_rows, get_row-update_self, at)

-- What approving a bolt's stage did: with the row under review and no reviewer's verdict against
-- it, the row is completed and a next stage named; otherwise there is an error and nothing changed.
abbrev pub IsApproval :
    Env → Feature → String → ℕ → FeatureStage → System → System × Feature × Approval → Type 0
IsApproval env f stage bolt fs sys (after, f', next id) =
    (can_review fs.status ≡ true)
    × (is_recirculated sys f.id stage ≡ false)
    × (get_feature_stage_row after f.id stage bolt ≡ some (approved_row env fs))
    × (f' ≡ f)
IsApproval env f stage bolt fs sys (after, f', refused err) =
    ((can_review fs.status ≡ false) ⊎ (is_recirculated sys f.id stage ≡ true))
    × (after ≡ sys)
    × (f' ≡ f)

-- ApproveAndAdvance of a bolt's own stage that has a row either completes that row, with its
-- revision count and start kept, and names the next stage to run, which it does only if the row was
-- under review and the last outcome was not `recirculate`; or it is refused for one of those two
-- reasons, and then neither the feature nor anything in the system has changed.
pub approve_and_advance-IsApproval :
    (env : Env) (f : Feature) (stage : String) (b : ℕ) (sys : System) (fs : FeatureStage)
    → is_per_bolt_stage stage ≡ true
    → get_feature_stage_row sys f.id stage (suc b) ≡ some fs
    → IsApproval env f stage (suc b) fs sys (approve_and_advance env f stage (suc b) sys)
unfolding approve_and_advance approve_row
approve_and_advance-IsApproval env f stage b sys fs of_bolt at =
    elim (Bool-cases (can_review fs.status)) [
      | inr other ↦ rw (at, other) (inl other, refl, refl)
      | inl ready ↦ elim (Bool-cases (is_recirculated sys f.id stage)) [
        | inl sent_back ↦ rw (at, ready, sent_back) (inr sent_back, refl, refl)
        | inr accepted ↦
            let approved = complete_stage env f.id stage (suc b) fs sys in
            rw (at, ready, accepted, of_bolt)
              (
                ready,
                accepted,
                get_row-next_stage_to_run env f.id approved f.id stage b
                    ∙ get_row-complete_stage env f.id stage (suc b) fs sys at,
                refl,
              )
      ]
    ]
