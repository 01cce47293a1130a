-- ===== src/Db/Stages.antt =====
-- internal/db/stage_store.go: stage_definitions and feature_stages.
-- A query returns `none` where the Go function returns an error. A statement returns the database
-- and whether it was accepted.
use devteam.Prelude.{
  Bool, List, Option, String, [], any, change, elem, false, find, keep, leb, ltb, map, none, not,
  refl, some, true, ℕ, ◌≡◌, ◌&&◌, ◌||◌, ◌∷◌, ◌++◌, ◌==◌, if◌then◌else◌, nat_eq, string_eq,
}
use devteam.Stage.Status.{Status, not_started}
use devteam.Db.Types.{StageDefinition, FeatureStage, Database}
use devteam.Db.Order.{order_by}

-- isPerBoltStage, and isPerBoltStageID of internal/pipeline/stage_runner.go, which mirrors it.
unfoldable pub is_per_bolt_stage : String → Bool
is_per_bolt_stage stage_id =
    stage_id == "3.1"
    || stage_id == "3.2"
    || stage_id == "3.3"
    || stage_id == "3.4"
    || stage_id == "3.5"

abbrev put_definition : StageDefinition → List StageDefinition → List StageDefinition
put_definition s [] = s ∷ []
put_definition s (d ∷ ds) = if d.id == s.id then s ∷ ds else d ∷ put_definition s ds

unfoldable pub upsert_stage_definition : Database → StageDefinition → Database × Bool
upsert_stage_definition db s =
    if db.up
    then (record db { stage_definitions = put_definition s db.stage_definitions }, true)
    else (db, false)

abbrev earlier : StageDefinition → StageDefinition → Bool
earlier a b = leb a.sort_order b.sort_order

unfoldable pub get_all_stage_definitions : Database → Option (List StageDefinition)
get_all_stage_definitions db = if db.up then some (order_by earlier db.stage_definitions) else none

unfoldable pub get_stage_definition : Database → String → Option StageDefinition
get_stage_definition db id = if db.up then find (λ s. s.id == id) db.stage_definitions else none

abbrev pub in_scope : String → StageDefinition → Bool
in_scope scope s = elem scope s.scopes

unfoldable pub get_stages_for_scope : Database → String → Option (List StageDefinition)
unfolding get_all_stage_definitions
get_stages_for_scope db scope = elim (get_all_stage_definitions db) [
  | none ↦ none
  | some all ↦ some (keep (in_scope scope) all)
]

-- The key of a row: UNIQUE (feature_id, stage_id, bolt_number).
abbrev pub is_row : String → String → ℕ → FeatureStage → Bool
is_row feature_id stage_id bolt_number r =
    r.feature_id == feature_id && r.stage_id == stage_id && r.bolt_number == bolt_number

abbrev pub fresh_row : String → String → ℕ → FeatureStage
fresh_row feature_id stage_id bolt_number = record {
  feature_id = feature_id;
  stage_id = stage_id;
  bolt_number = bolt_number;
  status = not_started;
  revision_count = 0;
  started_at = none;
  completed_at = none;
}

-- INSERT ... ON CONFLICT DO NOTHING.
unfoldable pub insert_row : String → String → ℕ → List FeatureStage → List FeatureStage
insert_row feature_id stage_id bolt_number rows =
    if any (is_row feature_id stage_id bolt_number) rows
    then rows
    else rows ++ fresh_row feature_id stage_id bolt_number ∷ []

-- The loop of InitFeatureStages and InitBoltStages over the stages, which leaves out those that
-- `wanted` does not hold of.
unfoldable pub insert_rows :
    (String → Bool) → String → ℕ → List StageDefinition → List FeatureStage → List FeatureStage
unfolding insert_row
insert_rows wanted feature_id bolt_number [] rows = rows
insert_rows wanted feature_id bolt_number (s ∷ ss) rows =
    insert_rows wanted feature_id bolt_number ss
      (if wanted s.id then insert_row feature_id s.id bolt_number rows else rows)

-- The rows that `rows` makes of the stages, unless the query for these failed.
abbrev pub with_rows :
    Database
    → (List StageDefinition → List FeatureStage)
    → Option (List StageDefinition)
    → Database × Bool
with_rows db rows none = (db, false)
with_rows db rows (some stages) = (record db { feature_stages = rows stages }, true)

unfoldable pub init_feature_stages : Database → String → String → Database × Bool
init_feature_stages db feature_id scope =
    with_rows db
      (λ stages.
        insert_rows (λ id. not (is_per_bolt_stage id)) feature_id 0 stages db.feature_stages)
      (get_stages_for_scope db scope)

unfoldable pub init_bolt_stages : Database → String → ℕ → String → Database × Bool
init_bolt_stages db feature_id bolt_num scope =
    with_rows db
      (λ stages. insert_rows is_per_bolt_stage feature_id bolt_num stages db.feature_stages)
      (get_stages_for_scope db scope)

-- The rows of feature_stages have no part in the query for stages.
pub get_stages_for_scope-feature_stages :
    (db : Database) (rows : List FeatureStage) (scope : String)
    → get_stages_for_scope (record db { feature_stages = rows }) scope
      ≡ get_stages_for_scope db scope
unfolding get_stages_for_scope
get_stages_for_scope-feature_stages db rows scope = refl

-- The rows of a feature joined with stage_definitions: the sort order goes along.
abbrev pub joined : List StageDefinition → String → List FeatureStage → List (ℕ × FeatureStage)
joined defs feature_id [] = []
joined defs feature_id (r ∷ rs) = elim (find (λ s. s.id == r.stage_id) defs) [
  | none ↦ joined defs feature_id rs
  | some s ↦
      if r.feature_id == feature_id
      then (s.sort_order, r) ∷ joined defs feature_id rs
      else joined defs feature_id rs
]

-- ORDER BY sd.sort_order ASC, fs.bolt_number ASC
abbrev pub stage_order : ℕ × FeatureStage → ℕ × FeatureStage → Bool
stage_order a b = ltb a.0 b.0 || (a.0 == b.0 && leb a.1.bolt_number b.1.bolt_number)

unfoldable pub get_feature_stages : Database → String → Option (List FeatureStage)
get_feature_stages db feature_id =
    if db.up
    then some (
        map (λ x. x.1)
          (order_by stage_order (joined db.stage_definitions feature_id db.feature_stages)))
    else none

-- `nil` where there is no row, and also where the query fails.
unfoldable pub get_feature_stage_for_bolt : Database → String → String → ℕ → Option FeatureStage
get_feature_stage_for_bolt db feature_id stage_id bolt_number =
    if db.up then find (is_row feature_id stage_id bolt_number) db.feature_stages else none

unfoldable pub get_feature_stage : Database → String → String → Option FeatureStage
get_feature_stage db feature_id stage_id =
    if db.up then find (is_row feature_id stage_id 0) db.feature_stages else none

abbrev pub written : Status → ℕ → Option ℕ → Option ℕ → FeatureStage → FeatureStage
written status revision_count started_at completed_at r = record r {
  status = status;
  revision_count = revision_count;
  started_at = started_at;
  completed_at = completed_at;
}

unfoldable pub update_feature_stage_for_bolt :
    Database → String → String → ℕ → Status → ℕ → Option ℕ → Option ℕ → Database × Bool
update_feature_stage_for_bolt db f s b status revision_count started_at completed_at =
    if db.up
    then (
      record db {
        feature_stages =
            change (is_row f s b) (written status revision_count started_at completed_at)
              db.feature_stages;
      },
      true,
    )
    else (db, false)

unfoldable pub update_feature_stage :
    Database → String → String → Status → ℕ → Option ℕ → Option ℕ → Database × Bool
update_feature_stage db f s status revision_count started_at completed_at =
    if db.up
    then (
      record db {
        feature_stages =
            change (is_row f s 0) (written status revision_count started_at completed_at)
              db.feature_stages;
      },
      true,
    )
    else (db, false)
