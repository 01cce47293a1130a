-- ===== src/Db/Init.antt =====
-- internal/db/stage_store.go: InitFeatureStages and InitBoltStages as wholes.
use devteam.Prelude.{
  All, All-map, Bool, Bool-cases, List, String, any, ap, false, inl, inr, some, true, ℕ, ◌≡◌, ◌⊎◌,
  ◌++◌,
}
use devteam.Db.Types.{StageDefinition, FeatureStage, Database}
use devteam.Db.Stages.{
  is_per_bolt_stage, is_row, insert_rows, get_stages_for_scope, get_stages_for_scope-feature_stages,
  init_bolt_stages,
}
use devteam.Db.Rows.{IsAdded, insert_rows-append, insert_rows_idem, insert_rows-present}

-- What a successful initialisation for a feature and bolt number did to the rows: it kept all and
-- appended fresh ones for wanted stages of the scope only, and every wanted stage of the scope has a row now.
pub record IsInit (wanted : String → Bool) (f : String) (b : ℕ) (ss : List StageDefinition)
    (before after : List FeatureStage) : Type 0 where
  pub added : List FeatureStage
  pub kept : after ≡ before ++ added
  pub fresh : All (IsAdded wanted f b ss) added
  pub present : All (λ s. (wanted s.id ≡ false) ⊎ (any (is_row f s.id b) after ≡ true)) ss

present_or_unwanted :
    (wanted : String → Bool) (f : String) (b : ℕ) (rows : List FeatureStage) (s : StageDefinition)
    → (wanted s.id ≡ true → any (is_row f s.id b) rows ≡ true)
    → (wanted s.id ≡ false) ⊎ (any (is_row f s.id b) rows ≡ true)
present_or_unwanted wanted f b rows s h = elim (Bool-cases (wanted s.id)) [
  | inl wants ↦ inr (h wants)
  | inr out ↦ inl out
]

insert_rows-IsInit :
    (wanted : String → Bool) (f : String) (b : ℕ) (ss : List StageDefinition)
    (rows : List FeatureStage)
    → IsInit wanted f b ss rows (insert_rows wanted f b ss rows)
insert_rows-IsInit wanted f b ss rows =
    let (added, e, all) = insert_rows-append wanted f b ss rows in
    record {
      added = added;
      kept = e;
      fresh = all;
      present =
          All-map _ _ ss (present_or_unwanted wanted f b (insert_rows wanted f b ss rows))
            (insert_rows-present wanted f b ss rows);
    }

-- InitBoltStages on the stages of a scope keeps every row, appends only not-started rows of the
-- bolt for those of the stages 3.1 to 3.5 that are in the scope, leaves a row for each of those in the scope, and a second call
-- changes nothing.
pub init_bolt_stages-IsInit :
    (db : Database) (f : String) (b : ℕ) (scope : String) (ss : List StageDefinition)
    → get_stages_for_scope db scope ≡ some ss
    → IsInit is_per_bolt_stage f b ss db.feature_stages
        (init_bolt_stages db f b scope).0.feature_stages
      × (init_bolt_stages (init_bolt_stages db f b scope).0 f b scope
          ≡ ((init_bolt_stages db f b scope).0, true))
unfolding init_bolt_stages
init_bolt_stages-IsInit db f b scope ss e = rw e (
  insert_rows-IsInit is_per_bolt_stage f b ss db.feature_stages,
  rw (get_stages_for_scope-feature_stages db _ scope, e)
      (ap (λ rows. (record db { feature_stages = rows }, true))
        (insert_rows_idem is_per_bolt_stage f b ss db.feature_stages)),
)
