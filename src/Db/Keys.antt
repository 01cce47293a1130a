-- ===== src/Db/Keys.antt =====
-- internal/db/stage_store.go: the key of feature_stages stays unique.
use devteam.Prelude.{
  Bool, Bool-cases, List, Option, String, [], any, any-append, arith, change, false, inl, inr, none,
  refl, some, ℕ, ◌≡◌, ◌∙◌, ◌∷◌, ◌++◌,
}
use text.Mathlib.TextEquality.{eq_iff}
use devteam.Stage.Status.{Status}
use devteam.Db.Types.{StageDefinition, FeatureStage, Database}
use devteam.Db.Stages.{
  is_row, fresh_row, insert_row, insert_rows, written, with_rows, get_stages_for_scope,
  init_feature_stages, init_bolt_stages, update_feature_stage_for_bolt,
}

-- No row has the key of a later one.
abbrev pub IsKeyed : List FeatureStage → Type 0
IsKeyed [] = Unit
IsKeyed (r ∷ rs) = (any (is_row r.feature_id r.stage_id r.bolt_number) rs ≡ false) × IsKeyed rs

-- Whether a row has a key and whether the row of that key is it are one question.
is_row_comm :
    (r q : FeatureStage)
    → is_row r.feature_id r.stage_id r.bolt_number q
      ≡ is_row q.feature_id q.stage_id q.bolt_number r
is_row_comm r q = ground (
  arith,
  eq_iff r.feature_id q.feature_id,
  eq_iff q.feature_id r.feature_id,
  eq_iff r.stage_id q.stage_id,
  eq_iff q.stage_id r.stage_id,
)

any-snoc_key :
    (rows : List FeatureStage) (q : FeatureStage)
    → any (is_row q.feature_id q.stage_id q.bolt_number) rows ≡ false
    → IsKeyed rows
    → IsKeyed (rows ++ q ∷ [])
any-snoc_key [] q n k = (refl, tt)
any-snoc_key (r ∷ rs) q n (h, k) = (
  ground (
    arith,
    any-append (is_row r.feature_id r.stage_id r.bolt_number) rs (q ∷ []),
    is_row_comm r q,
  ),
  any-snoc_key rs q (ground arith) k,
)

insert_row-IsKeyed :
    (f s : String) (b : ℕ) (rows : List FeatureStage)
    → IsKeyed rows
    → IsKeyed (insert_row f s b rows)
unfolding insert_row
insert_row-IsKeyed f s b rows k = elim (Bool-cases (any (is_row f s b) rows)) [
  | inl old ↦ rw old k
  | inr new ↦ rw new (any-snoc_key rows (fresh_row f s b) new k)
]

insert_rows-IsKeyed :
    (wanted : String → Bool) (f : String) (b : ℕ) (ss : List StageDefinition)
    (rows : List FeatureStage)
    → IsKeyed rows
    → IsKeyed (insert_rows wanted f b ss rows)
unfolding insert_rows
insert_rows-IsKeyed wanted f b [] rows k = k
insert_rows-IsKeyed wanted f b (s ∷ ss) rows k = elim (Bool-cases (wanted s.id)) [
  | inl wants ↦ rw wants (insert_rows-IsKeyed wanted f b ss _ (insert_row-IsKeyed f s.id b rows k))
  | inr out ↦ rw out (insert_rows-IsKeyed wanted f b ss rows k)
]

module _ (p : FeatureStage → Bool) (st : Status) (n : ℕ) (sa ca : Option ℕ) where
  any-change_key :
      (f s : String) (b : ℕ) (rows : List FeatureStage)
      → any (is_row f s b) (change p (written st n sa ca) rows) ≡ any (is_row f s b) rows
  any-change_key f s b [] = refl
  any-change_key f s b (r ∷ rs) = ground (arith, any-change_key f s b rs)

  change-IsKeyed :
      (rows : List FeatureStage) → IsKeyed rows → IsKeyed (change p (written st n sa ca) rows)
  change-IsKeyed [] k = tt
  change-IsKeyed (r ∷ rs) (h, k) = elim (Bool-cases (p r)) [
    | inl hit ↦ rw hit (any-change_key _ _ _ rs ∙ h, change-IsKeyed rs k)
    | inr miss ↦ rw miss (any-change_key _ _ _ rs ∙ h, change-IsKeyed rs k)
  ]

with_rows-IsKeyed :
    (db : Database) (rows : List StageDefinition → List FeatureStage)
    (stages : Option (List StageDefinition))
    → ((ss : List StageDefinition) → IsKeyed (rows ss))
    → IsKeyed db.feature_stages
    → IsKeyed (with_rows db rows stages).0.feature_stages
with_rows-IsKeyed db rows none h k = k
with_rows-IsKeyed db rows (some ss) h k = h ss

-- The statements on feature_stages.
pub data Statement : Type 0 where
  init_stages : (feature_id scope : String) → Statement
  init_bolt : (feature_id : String) (bolt_number : ℕ) (scope : String) → Statement
  update :
      (feature_id stage_id : String) (bolt_number : ℕ) (status : Status) (revision_count : ℕ)
      (started_at completed_at : Option ℕ)
      → Statement

abbrev pub execute : Statement → Database → Database
execute (init_stages f scope) db = (init_feature_stages db f scope).0
execute (init_bolt f b scope) db = (init_bolt_stages db f b scope).0
execute (update f s b st n sa ca) db = (update_feature_stage_for_bolt db f s b st n sa ca).0

-- Every statement on feature_stages keeps the rows' keys unique, whether or not it succeeds.
pub execute-IsKeyed :
    (st : Statement) (db : Database)
    → IsKeyed db.feature_stages
    → IsKeyed (execute st db).feature_stages
unfolding init_feature_stages init_bolt_stages update_feature_stage_for_bolt
execute-IsKeyed (init_stages f scope) db k =
    with_rows-IsKeyed db _ (get_stages_for_scope db scope)
      (λ ss. insert_rows-IsKeyed _ f 0 ss db.feature_stages k) k
execute-IsKeyed (init_bolt f b scope) db k =
    with_rows-IsKeyed db _ (get_stages_for_scope db scope)
      (λ ss. insert_rows-IsKeyed _ f b ss db.feature_stages k) k
execute-IsKeyed (update f s b st n sa ca) db k = elim (Bool-cases db.up) [
  | inl up ↦ rw up (change-IsKeyed (is_row f s b) st n sa ca db.feature_stages k)
  | inr down ↦ rw down k
]
