-- ===== src/Pipeline/Following.antt =====
-- internal/pipeline/stage_runner.go: AdvanceStage goes to the stage that follows.
use text.Mathlib.TextEquality.{eq_iff}
use devteam.Prelude.{
  All, Bool-cases, List, Option, Option-cases, String, [], arith, elem, false, inl, inr, keep, none,
  refl, some, sym, true, ◌≡◌, ◌∷◌, ◌==◌, nat_eq, string_eq, text_eq,
}
use devteam.Feature.Types.{Feature}
use devteam.Db.Types.{StageDefinition, Database}
use devteam.Db.Stages.{in_scope, get_stages_for_scope, get_all_stage_definitions}
use devteam.Pipeline.System.{System, Env, effective_scope, Error, no_stages, not_in_scope}
use devteam.Pipeline.Advance.{
  lists_scope, should_skip_stage, skip_stages, from_stage, workflow_complete, move_to,
  advance_stage,
}

lists_scope-elem :
    (scope : String) (scopes : List String)
    → elem scope scopes ≡ true
    → lists_scope scope scopes ≡ true
lists_scope-elem scope [] h = h
lists_scope-elem scope (s ∷ ss) h =
    ground (arith, eq_iff scope s, eq_iff s scope, lists_scope-elem scope ss)

-- The stages of a scope are not skipped in it.
abbrev IsKept : String → StageDefinition → Type 0
IsKept scope s = should_skip_stage scope s ≡ false

IsKept-in_scope :
    (scope : String) (all : List StageDefinition)
    → All (IsKept scope) (keep (in_scope (effective_scope scope)) all)
unfolding should_skip_stage
IsKept-in_scope scope [] = tt
IsKept-in_scope scope (s ∷ ss) = elim (Bool-cases (in_scope (effective_scope scope) s)) [
  | inr out ↦ rw out (IsKept-in_scope scope ss)
  | inl inside ↦
      rw inside (
        rw (lists_scope-elem (effective_scope scope) s.scopes inside) refl,
        IsKept-in_scope scope ss,
      )
]

IsKept-from_stage :
    (scope id : String) (stages : List StageDefinition) (old : StageDefinition)
    (rest : List StageDefinition)
    → from_stage id stages ≡ some (old, rest)
    → All (IsKept scope) stages
    → All (IsKept scope) rest
IsKept-from_stage scope id [] old rest e h = ground (arith, e)
IsKept-from_stage scope id (s ∷ ss) old rest e h = elim (Bool-cases (s.id == id)) [
  | inl hit ↦ let same : ss ≡ rest = ground (arith, hit, e) in rw (sym same) h.1
  | inr miss ↦ IsKept-from_stage scope id ss old rest (ground (arith, miss, e)) h.1
]

IsKept-get_stages_for_scope :
    (scope : String) (db : Database) (stages : List StageDefinition)
    → get_stages_for_scope db (effective_scope scope) ≡ some stages
    → All (IsKept scope) stages
unfolding get_stages_for_scope
IsKept-get_stages_for_scope scope db stages e = elim (Option-cases (get_all_stage_definitions db)) [
  | inl absent ↦ ground (arith, absent, e)
  | inr (all, found) ↦
      let same : keep (in_scope (effective_scope scope)) all ≡ stages = ground (arith, found, e) in
      rw (sym same) (IsKept-in_scope scope all)
]

-- The step behind the search for the current stage, with the loop and without.
abbrev onward :
    Env
    → Feature
    → String
    → StageDefinition
    → System × Option StageDefinition
    → System × Feature × Option Error
onward env f current old (sys, none) = workflow_complete f current sys
onward env f current old (sys, some new) = move_to env f old new sys

abbrev onward_plainly :
    Env
    → Feature
    → String
    → StageDefinition
    → List StageDefinition
    → System
    → System × Feature × Option Error
onward_plainly env f current old [] sys = workflow_complete f current sys
onward_plainly env f current old (new ∷ _) sys = move_to env f old new sys

follows :
    (env : Env) (f : Feature) (current : String) (old : StageDefinition)
    (rest : List StageDefinition) (sys : System)
    → All (IsKept f.scope) rest
    → onward env f current old (skip_stages env f rest sys)
      ≡ onward_plainly env f current old rest sys
unfolding skip_stages
follows env f current old [] sys h = refl
follows env f current old (new ∷ more) sys h = rw h.0 refl

-- AdvanceStage without its loop.
abbrev pub advance_plainly : Env → Feature → String → System → System × Feature × Option Error
advance_plainly env f current sys =
    let scope = effective_scope f.scope in
    elim (get_stages_for_scope sys.db scope) [
      | none ↦ (sys, f, some (no_stages scope))
      | some stages ↦ elim (from_stage current stages) [
        | none ↦ (sys, f, some (not_in_scope current scope))
        | some (old, rest) ↦ onward_plainly env f current old rest sys
      ]
    ]

-- The loop of AdvanceStage over stages out of scope never turns: AdvanceStage completes the
-- workflow at the last stage of the scope and otherwise moves to the stage that follows the current
-- one, with no row marked as skipped on the way.
pub advance_stage-follows :
    (env : Env) (f : Feature) (current : String) (sys : System)
    → advance_stage env f current sys ≡ advance_plainly env f current sys
unfolding advance_stage
advance_stage-follows env f current sys =
    let scope = effective_scope f.scope in
    elim (Option-cases (get_stages_for_scope sys.db scope)) [
      | inl absent ↦ rw (advance_stage, advance_plainly, absent) refl
      | inr (stages, found) ↦ elim (Option-cases (from_stage current stages)) [
        | inl other ↦ rw (advance_stage, advance_plainly, found, other) refl
        | inr ((old, rest), at) ↦
            rw (advance_stage, advance_plainly, found, at)
              (follows env f current old rest sys (
                IsKept-from_stage f.scope current stages old rest at
                  (IsKept-get_stages_for_scope f.scope sys.db stages found)))
      ]
    ]
