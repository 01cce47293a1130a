-- ===== src/Api/Atomic.antt =====
-- internal/pipeline: the operations behind the handlers change nothing where they fail.
use devteam.Prelude.{
  Bool-cases, Option, Option-cases, String, find, inl, inr, none, not, refl, ℕ, ◌≡◌, ◌⊎◌, ◌&&◌,
  ◌==◌, nat_eq, string_eq, text_eq,
}
use devteam.Feature.Types.{Feature}
use devteam.Db.Stages.{get_stage_definition, get_stages_for_scope}
use devteam.Pipeline.System.{System, Error, get_feature_stage_row, effective_scope}
use devteam.Pipeline.Verdict
use devteam.Pipeline.Verdict.{can_review, reject_row}
use devteam.Pipeline.Jump
use devteam.Pipeline.Jump.{before_stage}
use devteam.Pipeline.Ladder.{ladder_prompt, autonomy_gated, autonomy_autonomous}

-- An operation of the pipeline that fails changes nothing.
abbrev pub IsAtomic : System → System × Option Error → Type 0
IsAtomic sys out = (out.1 ≡ none) ⊎ (out.0 ≡ sys)

pub reject_stage-IsAtomic :
    (f : Feature) (stage : String) (bolt : ℕ) (notes : String) (sys : System)
    → IsAtomic sys (Verdict.reject_stage f stage bolt notes sys)
unfolding Verdict.reject_stage reject_row
reject_stage-IsAtomic f stage bolt notes sys =
    elim (Option-cases (get_feature_stage_row sys f.id stage bolt)) [
      | inl missing ↦ inr (rw missing refl)
      | inr (fs, at) ↦ elim (Bool-cases (can_review fs.status)) [
        | inr barred ↦ inr (rw (at, barred) refl)
        | inl able ↦ elim (Option-cases (get_stage_definition sys.db stage)) [
          | inl undefined ↦ inr (rw (at, able, undefined) refl)
          | inr (d, def) ↦ inl (rw (at, able, def) refl)
        ]
      ]
    ]

pub jump_to_stage-IsAtomic :
    (f : Feature) (target : String) (sys : System) → IsAtomic sys (Jump.jump_to_stage f target sys)
unfolding Jump.jump_to_stage
jump_to_stage-IsAtomic f target sys =
    elim (Option-cases (get_stages_for_scope sys.db (effective_scope f.scope))) [
      | inl missing ↦ inr (rw (Jump.jump_to_stage, missing) refl)
      | inr (stages, at) ↦ elim (Option-cases (before_stage target stages)) [
        | inl outside ↦ inr (rw (Jump.jump_to_stage, at, outside) refl)
        | inr (before, inside) ↦ inl (rw (Jump.jump_to_stage, at, inside) refl)
      ]
    ]

pub jump_to_phase-IsAtomic :
    (f : Feature) (phase : String) (sys : System) → IsAtomic sys (Jump.jump_to_phase f phase sys)
unfolding Jump.jump_to_phase
jump_to_phase-IsAtomic f phase sys =
    elim (Option-cases (get_stages_for_scope sys.db (effective_scope f.scope))) [
      | inl missing ↦ inr (rw (Jump.jump_to_phase, missing) refl)
      | inr (stages, at) ↦ elim (Option-cases (find (λ s. s.phase == phase) stages)) [
        | inl none_there ↦ inr (rw (Jump.jump_to_phase, at, none_there) refl)
        | inr (d, there) ↦ rw (Jump.jump_to_phase, at, there) (jump_to_stage-IsAtomic f d.id sys)
      ]
    ]

pub ladder_prompt-IsAtomic :
    (f : Feature) (mode : String) (sys : System)
    → let (sys', f', e) = ladder_prompt f mode sys in IsAtomic sys (sys', e)
unfolding ladder_prompt
ladder_prompt-IsAtomic f mode sys =
    elim (Bool-cases (not (mode == autonomy_gated) && not (mode == autonomy_autonomous))) [
      | inl bad ↦ inr (rw bad refl)
      | inr good ↦ inl (rw good refl)
    ]
