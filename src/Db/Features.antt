-- ===== src/Db/Features.antt =====
-- internal/db/feature_state_store.go and feature_store.go, with the calls of
-- internal/spec/provider.go: loading and saving a feature.
use mathlib.Core.Option
use devteam.Prelude.{
  Bool, List, Option, String, [], change, false, find, none, some, true, ◌∷◌, ◌==◌, if◌then◌else◌,
  nat_eq, string_eq, text_eq,
}
use devteam.Feature.Types.{Feature, Status, in_progress, loose_idea}
use devteam.Feature.Phase.{current_phase_legacy}
use devteam.Db.Types.{FeatureRow, Database}

-- COALESCE(NULLIF(new, ''), old, ''): an empty text does not overwrite a column.
abbrev pub coalesce : String → String → String
coalesce new old = if new == "" then old else new

-- The row that is inserted for a feature.
abbrev pub row_of : Feature → FeatureRow
row_of f = record {
  id = f.id;
  title = f.title;
  status = f.status;
  current_phase = current_phase_legacy f;
  priority = f.priority;
  scope = f.scope;
  depth = f.depth;
  test_strategy = f.test_strategy;
  execution_mode = f.execution_mode;
  autonomy_mode = f.autonomy_mode;
  feature_data = some f;
}

-- ON CONFLICT(id) DO UPDATE.
abbrev pub updated : FeatureRow → Feature → FeatureRow
updated r f = record r {
  title = f.title;
  status = f.status;
  current_phase = current_phase_legacy f;
  priority = f.priority;
  scope = coalesce f.scope r.scope;
  depth = coalesce f.depth r.depth;
  test_strategy = coalesce f.test_strategy r.test_strategy;
  execution_mode = coalesce f.execution_mode r.execution_mode;
  autonomy_mode = coalesce f.autonomy_mode r.autonomy_mode;
  feature_data = some f;
}

unfoldable pub put_feature : Feature → List FeatureRow → List FeatureRow
put_feature f [] = row_of f ∷ []
put_feature f (r ∷ rs) = if r.id == f.id then updated r f ∷ rs else r ∷ put_feature f rs

unfoldable pub save_feature_state : Database → Feature → Database × Bool
save_feature_state db f =
    if db.up then (record db { features = put_feature f db.features }, true) else (db, false)

-- What JSON without any field gives. It gives no intake path, for which the first one stands; the
-- fields of the columns are overlaid.
abbrev blank : Feature
blank = record {
  id = "";
  title = "";
  status = in_progress;
  priority = 0;
  intake_path = loose_idea;
  spec_dir = "";
  worktree_dir = "";
  created_at = 0;
  updated_at = 0;
  dependencies = [];
  repos = [];
  prepared_repos = [];
  scope = "";
  depth = "";
  test_strategy = "";
  execution_mode = "";
  autonomy_mode = "";
  current_stage = "";
  current_bolt = 0;
}

-- The columns laid over the JSON, where they are not empty.
abbrev pub overlay : FeatureRow → Feature → Feature
overlay r f = record f {
  id = r.id;
  title = r.title;
  status = r.status;
  priority = r.priority;
  scope = coalesce r.scope f.scope;
  depth = coalesce r.depth f.depth;
  test_strategy = coalesce r.test_strategy f.test_strategy;
  execution_mode = coalesce r.execution_mode f.execution_mode;
  autonomy_mode = coalesce r.autonomy_mode f.autonomy_mode;
}

abbrev pub loaded : FeatureRow → Feature
loaded r = overlay r (elim r.feature_data [ some f ↦ f | none ↦ blank ])

abbrev pub load_row : String → List FeatureRow → Option Feature
load_row id rows = Option.map loaded (find (λ r. r.id == id) rows)

-- `none` where the load fails, for want of a row or of a server.
unfoldable pub load_feature_state : Database → String → Option Feature
load_feature_state db id = if db.up then load_row id db.features else none

unfoldable pub update_feature_status : Database → String → Status → String → Database × Bool
update_feature_status db id status current_phase =
    if db.up
    then (
      record db {
        features =
            change (λ r. r.id == id)
              (λ r. record r { status = status; current_phase = current_phase }) db.features;
      },
      true,
    )
    else (db, false)
