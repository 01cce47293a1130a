-- ===== src/Pipeline/Reasons.antt =====
-- internal/pipeline/advance.go: why decideNextAction chooses what it chooses.
use mathlib.Core.List.{Memᴰ}
use devteam.Prelude.{
  Bool-cases, List, List-cases, Option-cases, String, [], any, arith, false, find, find-mem,
  find-none-any, inl, inr, ltb, none, refl, some, true, ◌<◌, ◌≡◌, ◌≢◌, ◌⊎◌, ◌&&◌, ◌∷◌, ◌==◌, nat_eq,
  string_eq, text_eq,
}
use devteam.Stage.Status.{Status, index_iff, status_eq, in_progress, awaiting_approval, revising}
use devteam.Feature.Types.{Feature}
use devteam.Db.Types.{FeatureStage, BoltRow}
use devteam.Db.Stages.{is_per_bolt_stage, get_stage_definition}
use devteam.Db.Events.{count_merges}
use devteam.Pipeline.System.{System, Env, effective_scope}
use devteam.Pipeline.Choice.{Row, IsLinear, linear-IsLinear}
use devteam.Pipeline.Decide.{
  NextAction, finish, wait, prepare_bolts, merge_to_main, needs_human, run_stage, auto_approve,
  run_bolt, is_auto, has_status, is_completed_stage, is_open_bolt, bolts_of, linear,
  merge_or_linear, bolts_or_later, decide_next_action,
}

module _ (sys : System) (f : Feature) (stages : List FeatureStage) (mode : String) where
  -- No row runs, waits for approval or is revised.
  pub record IsQuiet : Type 0 where
    pub none_runs : any (has_status in_progress) stages ≡ false
    pub none_waits : any (has_status awaiting_approval) stages ≡ false
    pub none_revised : any (has_status revising) stages ≡ false

  -- No row runs or waits for approval.
  abbrev pub IsSettled : Type 0
  IsSettled =
      (any (has_status in_progress) stages ≡ false)
      × (any (has_status awaiting_approval) stages ≡ false)

  -- Step 5 has no bolt to run.
  abbrev pub BoltsSettled : Type 0
  BoltsSettled =
      (any (is_completed_stage "2.8") stages ≡ false)
      ⊎ (find (is_open_bolt stages) (bolts_of sys f.id) ≡ none) × (bolts_of sys f.id ≢ [])

  -- Step 6 has no merge to make.
  abbrev pub MergeSettled : Type 0
  MergeSettled =
      (any (is_completed_stage "3.7") stages ≡ false) ⊎ (count_merges sys.db f.id ≢ some 0)

  abbrev pub IsLinearChoice : NextAction → Type 0
  IsLinearChoice = IsLinear (get_stage_definition sys.db) (effective_scope f.scope) stages

  -- What holds of the feature where an action is chosen.
  abbrev pub IsJustified : NextAction → Type 0
  IsJustified wait =
      (any (has_status in_progress) stages ≡ true)
      ⊎ IsSettled × (is_auto mode ≡ false) × ((s : FeatureStage) × Row stages revising s)
  IsJustified (needs_human id) =
      (any (has_status in_progress) stages ≡ false)
      × (is_auto mode ≡ false)
      × ((s : FeatureStage) × Row stages awaiting_approval s × (id ≡ s.stage_id))
  IsJustified (auto_approve id b) =
      (any (has_status in_progress) stages ≡ false)
      × (is_auto mode ≡ true)
      × ((s : FeatureStage) × Row stages awaiting_approval s
          × (id ≡ s.stage_id)
          × (b ≡ s.bolt_number))
  IsJustified (run_bolt b) =
      IsSettled
        × (is_auto mode ≡ true)
        × ((s : FeatureStage) × Row stages revising s
            × (b ≡ s.bolt_number)
            × (is_per_bolt_stage s.stage_id ≡ true)
            × (0 < s.bolt_number))
      ⊎ IsQuiet
        × (any (is_completed_stage "2.8") stages ≡ true)
        × ((r : BoltRow) × Memᴰ r (bolts_of sys f.id)
            × (b ≡ r.bolt_number)
            × (is_open_bolt stages r ≡ true))
  IsJustified prepare_bolts =
      IsQuiet × (any (is_completed_stage "2.8") stages ≡ true) × (bolts_of sys f.id ≡ [])
  IsJustified merge_to_main =
      IsQuiet
      × BoltsSettled
      × (any (is_completed_stage "3.7") stages ≡ true)
      × (count_merges sys.db f.id ≡ some 0)
  IsJustified (run_stage id) =
      IsSettled
        × (is_auto mode ≡ true)
        × ((s : FeatureStage) × Row stages revising s
            × (id ≡ s.stage_id)
            × ((is_per_bolt_stage s.stage_id ≡ false) ⊎ (s.bolt_number ≡ 0)))
      ⊎ IsQuiet × BoltsSettled × MergeSettled × IsLinearChoice (run_stage id)
  IsJustified finish = IsQuiet × BoltsSettled × MergeSettled × IsLinearChoice finish

  justify_linear :
      (a : NextAction) → IsQuiet → BoltsSettled → MergeSettled → IsLinearChoice a → IsJustified a
  justify_linear finish q b m l = (q, b, m, l)
  justify_linear (run_stage id) q b m l = inr (q, b, m, l)
  justify_linear _ q b m l = absurd l

  merge-IsJustified :
      (env : Env) → IsQuiet → BoltsSettled → IsJustified (merge_or_linear env f stages sys).1
  unfolding merge_or_linear
  merge-IsJustified env q b =
      let l : IsLinearChoice (linear env f.id (effective_scope f.scope) stages sys).1 =
        linear-IsLinear env f.id (effective_scope f.scope) (get_stage_definition sys.db) stages sys
          (λ id. refl) in
      elim (Bool-cases (any (is_completed_stage "3.7") stages)) [
        | inr open_37 ↦ rw open_37 (justify_linear _ q b (inl open_37) l)
        | inl done_37 ↦ elim (Option-cases (count_merges sys.db f.id)) [
          | inl e ↦ rw (done_37, e) (justify_linear _ q b (inr (λ c. cc (e, c))) l)
          | inr (n, e) ↦ elim (Bool-cases (n == 0)) [
            | inl zero_n ↦
                let counted : count_merges sys.db f.id ≡ some 0 = ground (arith, e) in
                rw (done_37, e, zero_n) (q, b, done_37, counted)
            | inr more ↦
                let counted : count_merges sys.db f.id ≢ some 0 = ground (arith, e) in
                rw (done_37, e, more) (justify_linear _ q b (inr counted) l)
          ]
        ]
      ]

  bolts-IsJustified : (env : Env) → IsQuiet → IsJustified (bolts_or_later env f stages sys).1
  unfolding bolts_or_later
  bolts-IsJustified env q = elim (Bool-cases (any (is_completed_stage "2.8") stages)) [
    | inr open_28 ↦ rw open_28 (merge-IsJustified env q (inl open_28))
    | inl done_28 ↦ elim (List-cases (bolts_of sys f.id)) [
      | inl e ↦ rw (done_28, e) (q, done_28, e)
      | inr (b, bs, e) ↦ elim (Option-cases (find (is_open_bolt stages) (b ∷ bs))) [
        | inl n ↦
            let settled : BoltsSettled = inr (rw e n, rw e (λ c. cc)) in
            rw (done_28, e, n) (merge-IsJustified env q settled)
        | inr (r, n) ↦
            let (m, open_r) = find-mem (is_open_bolt stages) (b ∷ bs) r n in
            rw (done_28, e, n) (inr (q, done_28, (r, rw e m, refl, open_r)))
      ]
    ]
  ]

  Row-with :
      (st : Status) (s : FeatureStage) → find (has_status st) stages ≡ some s → Row stages st s
  Row-with st s e =
      let (m, h) = find-mem (has_status st) stages s e in
      record { listed = m; stands = (index_iff s.status st).0 h }

  decide-IsJustified : (env : Env) → IsJustified (decide_next_action env f stages mode sys).1
  unfolding decide_next_action
  decide-IsJustified env = elim (Bool-cases (any (has_status in_progress) stages)) [
    | inl busy ↦ rw busy (inl busy)
    | inr idle ↦ elim (Option-cases (find (has_status awaiting_approval) stages)) [
      | inr (s, e) ↦ elim (Bool-cases (is_auto mode)) [
        | inl auto ↦ rw (idle, e, auto) (idle, auto, (s, Row-with _ s e, refl, refl))
        | inr human ↦ rw (idle, e, human) (idle, human, (s, Row-with _ s e, refl))
      ]
      | inl a ↦ elim (Option-cases (find (has_status revising) stages)) [
        | inr (s, e) ↦ elim (Bool-cases (is_auto mode)) [
          | inr human ↦
              rw (idle, a, e, human)
                (inr ((idle, find-none-any _ stages a), human, (s, Row-with _ s e)))
          | inl auto ↦ elim (Bool-cases (is_per_bolt_stage s.stage_id && ltb 0 s.bolt_number)) [
            | inl of_bolt ↦
                rw (idle, a, e, auto, of_bolt)
                  (inl (
                    (idle, find-none-any _ stages a),
                    auto,
                    (s, Row-with _ s e, refl, ground (arith, of_bolt), ground (arith, of_bolt)),
                  ))
            | inr shared ↦
                rw (idle, a, e, auto, shared)
                  (inl (
                    (idle, find-none-any _ stages a),
                    auto,
                    (s, Row-with _ s e, refl, ground (arith, shared)),
                  ))
          ]
        ]
        | inl v ↦
            rw (idle, a, v)
              (bolts-IsJustified env (record {
                none_runs = idle;
                none_waits = find-none-any _ stages a;
                none_revised = find-none-any _ stages v;
              }))
      ]
    ]
  ]

pub decide_next_action-IsJustified :
    (env : Env) (f : Feature) (stages : List FeatureStage) (mode : String) (sys : System)
    → IsJustified sys f stages mode (decide_next_action env f stages mode sys).1
decide_next_action-IsJustified env f stages mode sys = decide-IsJustified sys f stages mode env
