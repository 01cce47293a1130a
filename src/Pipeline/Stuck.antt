-- ===== src/Pipeline/Stuck.antt =====
-- internal/pipeline/advance.go with stage_runner.go: a stage that is in progress with nobody at work.
use devteam.Prelude.{
  Bool, Bool-cases, List, Option-cases, String, [], any, ap, arith, false, find, inl, inr, map,
  none, refl, some, string_eq, sym, true, ℕ, ◌≡◌, ◌∙◌, ◌||◌, ◌∷◌, ◌==◌, nat_eq, text_eq,
}
use devteam.Stage.Status.{status_eq, in_progress}
use devteam.Feature.Types.{Feature}
use devteam.Db.Types.{FeatureStage, StageDefinition}
use devteam.Db.Features.{load_feature_state}
use devteam.Db.Order.{insert, order_by}
use devteam.Db.Stages.{
  is_row, joined, stage_order, get_feature_stages, get_feature_stage_for_bolt, get_stage_definition,
}
use devteam.Pipeline.System.{
  System, Env, get_feature_stage_row, get_feature, Error, role_not_loaded, wait_cancelled,
  effective_mode,
}
use devteam.Pipeline.Rows.{get_row-bolt}
use devteam.Pipeline.Decide.{wait, decide_next_action, has_status}
use devteam.Pipeline.Agent.{Visit}
use devteam.Pipeline.Close.{not_run}
use devteam.Pipeline.Run.{bolt_for, run_stage}
use devteam.Pipeline.Left.{row_left, run_stage-row}
use devteam.Pipeline.Loop.{Turn, ended, take_turn, perform, advance_loop, advance_feature}

any-insert :
    {A : Type 0} (le : A → A → Bool) (p : A → Bool) (x : A) (ys : List A)
    → any p (insert le x ys) ≡ (p x || any p ys)
any-insert le p x [] = refl
any-insert le p x (y ∷ ys) = ground (arith, any-insert le p x ys)

any-order_by :
    {A : Type 0} (le : A → A → Bool) (p : A → Bool) (xs : List A)
    → any p (order_by le xs) ≡ any p xs
unfolding order_by
any-order_by le p [] = refl
any-order_by le p (x ∷ xs) =
    any-insert le p x (order_by le xs) ∙ ap (λ t. p x || t) (any-order_by le p xs)

any-map_snd :
    (p : FeatureStage → Bool) (xs : List (ℕ × FeatureStage))
    → any p (map (λ x. x.1) xs) ≡ any (λ x. p x.1) xs
any-map_snd p [] = refl
any-map_snd p (x ∷ xs) = ground (arith, any-map_snd p xs)

-- A row of the feature whose stage is defined stands in the join.
any-joined :
    (defs : List StageDefinition) (f s : String) (b : ℕ) (def : StageDefinition)
    (rows : List FeatureStage) (r : FeatureStage) (p : FeatureStage → Bool)
    → find (λ d. d.id == s) defs ≡ some def
    → find (is_row f s b) rows ≡ some r
    → p r ≡ true
    → any (λ x. p x.1) (joined defs f rows) ≡ true
any-joined defs f s b def [] r p d e h = cc e
any-joined defs f s b def (q ∷ qs) r p d e h = elim (Bool-cases (is_row f s b q)) [
  | inl hit ↦
      let same : q ≡ r = ground arith in
      let at : q.stage_id ≡ s = (string_eq.beq_iff q.stage_id s).0 (ground arith) in
      let mine : (q.feature_id == f) ≡ true = ground arith in
      let found : find (λ x. x.id == q.stage_id) defs ≡ some def = rw at d in
      let passes : p q ≡ true = rw same h in rw (joined, found, mine, passes) refl
  | inr miss ↦
      let rest = any-joined defs f s b def qs r p d (ground arith) h in
      elim (Option-cases (find (λ x. x.id == q.stage_id) defs)) [
        | inl absent ↦ rw (joined, absent) rest
        | inr (def', found) ↦ elim (Bool-cases (q.feature_id == f)) [
          | inl mine ↦ rw (joined, found, mine) (ground (arith, rest))
          | inr other ↦ rw (joined, found, other) rest
        ]
      ]
]

-- A row in progress of a defined stage is among the stages that AdvanceFeature reads.
in_progress-read :
    (sys : System) (f s : String) (b : ℕ) (r : FeatureStage) (def : StageDefinition)
    → get_stage_definition sys.db s ≡ some def
    → get_feature_stage_row sys f s b ≡ some r
    → r.status ≡ in_progress
    → (stages : List FeatureStage) → get_feature_stages sys.db f ≡ some stages
    → any (has_status in_progress) stages ≡ true
unfolding get_stage_definition get_feature_stages get_feature_stage_for_bolt
in_progress-read sys f s b r def d at st stages e =
    let bolt_at : get_feature_stage_for_bolt sys.db f s b ≡ some r =
      sym (get_row-bolt sys f s b) ∙ at in
    elim (Bool-cases sys.db.up) [
      | inr down ↦ absurd (ground arith)
      | inl up ↦
          let there = joined sys.db.stage_definitions f sys.db.feature_stages in
          let listed : any (λ x. has_status in_progress x.1) there ≡ true =
            any-joined sys.db.stage_definitions f s b def sys.db.feature_stages r
              (has_status in_progress) (ground arith) (ground arith) (rw st refl) in
          let whole : map (λ x. x.1) (order_by stage_order there) ≡ stages = ground arith in
          rw⁻¹ whole (
            any-map_snd (has_status in_progress) (order_by stage_order there)
            ∙ any-order_by stage_order (λ x. has_status in_progress x.1) there
            ∙ listed)
    ]

decide_next_action-running :
    (env : Env) (g : Feature) (stages : List FeatureStage) (mode : String) (sys : System)
    → any (has_status in_progress) stages ≡ true
    → decide_next_action env g stages mode sys ≡ (sys, wait)
unfolding decide_next_action
decide_next_action-running env g stages mode sys running = rw running

read_stages :
    (sys : System) (id : String) (g : Feature)
    → get_feature sys id ≡ some g
    → (stages : List FeatureStage) × (get_feature_stages sys.db id ≡ some stages)
unfolding get_feature_stages load_feature_state
read_stages sys id g there = elim (Option-cases (get_feature_stages sys.db id)) [
  | inr found ↦ found
  | inl absent ↦
      absurd (elim (Bool-cases sys.db.up) [ inr down ↦ ground arith | inl up ↦ ground arith ])
]

take_turn-waits :
    (env : Env) (turn : Turn) (sys : System) (id mode s : String) (b : ℕ) (r : FeatureStage)
    (def : StageDefinition) (g : Feature)
    → turn.cancelled ≡ false
    → get_feature sys id ≡ some g
    → get_stage_definition sys.db s ≡ some def
    → get_feature_stage_row sys id s b ≡ some r
    → r.status ≡ in_progress
    → take_turn env turn id mode sys ≡ (sys, ended none)
unfolding take_turn perform
take_turn-waits env turn sys id mode s b r def g go_on there d at st =
    let (stages, e) = read_stages sys id g there in
    let running = in_progress-read sys id s b r def d at st stages e in
    rw (take_turn, go_on, there, e, decide_next_action-running env g stages mode sys running) refl

advance_loop-ended :
    (env : Env) (turn : Turn) (turns : List Turn) (id mode : String) (sys : System)
    → take_turn env turn id mode sys ≡ (sys, ended none)
    → advance_loop env (turn ∷ turns) id mode sys ≡ (sys, ended none)
unfolding advance_loop
advance_loop-ended env turn turns id mode sys e = rw (advance_loop, e) refl

-- A stage in progress, of a feature that can be loaded, holds AdvanceFeature up.
advance_feature-waits :
    (env : Env) (turn : Turn) (turns : List Turn) (sys : System) (id s : String) (b : ℕ)
    (r : FeatureStage) (def : StageDefinition) (g : Feature)
    → turn.cancelled ≡ false
    → get_feature sys id ≡ some g
    → get_stage_definition sys.db s ≡ some def
    → get_feature_stage_row sys id s b ≡ some r
    → r.status ≡ in_progress
    → advance_feature env (turn ∷ turns) id sys ≡ (sys, ended none)
unfolding advance_feature
advance_feature-waits env turn turns sys id s b r def g go_on there d at st =
    rw (advance_feature, there)
      (advance_loop-ended env turn turns id (effective_mode g.execution_mode) sys
        (take_turn-waits env turn sys id _ s b r def g go_on there d at st))

-- The errors behind which RunStage leaves its row in progress.
abbrev pub Strands : Error → Type 0
Strands (role_not_loaded agent reason) = Unit
Strands wait_cancelled = Unit
Strands _ = ⊥

row_left-Strands :
    (env : Env) (e : Error) (fs : FeatureStage)
    → Strands e
    → (row_left env (not_run e) fs).status ≡ in_progress
row_left-Strands env (role_not_loaded agent reason) fs h = refl
row_left-Strands env wait_cancelled fs h = refl
row_left-Strands env _ fs h = absurd h

-- A run of a stage whose role cannot be loaded, or which is cancelled in the wait before its retry,
-- holds the feature up for good: with the feature loaded and the stage defined as before, every later
-- AdvanceFeature that is not cancelled returns at once, without an error and without any change.
pub run_stage-advance_feature :
    (env later : Env) (visit : Visit) (turn : Turn) (turns : List Turn) (f f' g : Feature)
    (stage : String) (e : Error) (sys after : System) (fs : FeatureStage) (def : StageDefinition)
    → get_feature_stage_row sys f.id stage (bolt_for f stage) ≡ some fs
    → Strands e
    → run_stage env visit f stage sys ≡ (after, f', not_run e)
    → get_feature after f.id ≡ some g
    → get_stage_definition after.db stage ≡ some def
    → turn.cancelled ≡ false
    → advance_feature later (turn ∷ turns) f.id after ≡ (after, ended none)
run_stage-advance_feature env later visit turn turns f f' g stage e sys after fs def at strands run
      there d go_on =
    let row = rw run at (run_stage-row env visit f stage sys fs at) in
    advance_feature-waits later turn turns after f.id stage (bolt_for f stage) _ def g go_on there d
      row (row_left-Strands env e fs strands)
