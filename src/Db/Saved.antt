-- ===== src/Db/Saved.antt =====
-- internal/db/feature_state_store.go: what is loaded after a save.
use devteam.Prelude.{
  Bool-cases, List, Option, String, [], ap, beq_refl, false, find, inl, inr, none, refl, some,
  string_eq, sym, true, ◌≡◌, ◌∙◌, ◌∷◌, ◌==◌, if◌then◌else◌, nat_eq, text_eq,
}
use devteam.Feature.Types.{Feature}
use devteam.Db.Types.{FeatureRow, Database}
use devteam.Db.Features.{
  coalesce, row_of, updated, loaded, put_feature, load_row, save_feature_state, load_feature_state,
}

coalesce_self : (a : String) → coalesce a a ≡ a
coalesce_self a = elim (Bool-cases (a == "")) [ inl h ↦ rw h refl | inr h ↦ rw h refl ]

coalesce_twice : (a b : String) → coalesce (coalesce a b) a ≡ (if a == "" then b else a)
coalesce_twice a b = elim (Bool-cases (a == "")) [
  | inr h ↦ rw (h, h) refl
  | inl h ↦
      let e : a ≡ "" = (string_eq.beq_iff a "").0 h in
      elim (Bool-cases (b == "")) [
        | inl k ↦ rw (h, k) (e ∙ sym ((string_eq.beq_iff b "").0 k))
        | inr k ↦ rw (h, k) refl
      ]
]

-- A feature with what its row had in five columns, where its own fields are empty.
abbrev pub saved_over : Option FeatureRow → Feature → Feature
saved_over none f = f
saved_over (some r) f = record f {
  scope = if f.scope == "" then r.scope else f.scope;
  depth = if f.depth == "" then r.depth else f.depth;
  test_strategy = if f.test_strategy == "" then r.test_strategy else f.test_strategy;
  execution_mode = if f.execution_mode == "" then r.execution_mode else f.execution_mode;
  autonomy_mode = if f.autonomy_mode == "" then r.autonomy_mode else f.autonomy_mode;
}

abbrev pub row_at : String → List FeatureRow → Option FeatureRow
row_at id rows = find (λ r. r.id == id) rows

loaded-row_of : (f : Feature) → loaded (row_of f) ≡ f
loaded-row_of f i = record f {
  scope = coalesce_self f.scope i;
  depth = coalesce_self f.depth i;
  test_strategy = coalesce_self f.test_strategy i;
  execution_mode = coalesce_self f.execution_mode i;
  autonomy_mode = coalesce_self f.autonomy_mode i;
}

loaded-updated :
    (r : FeatureRow) (f : Feature) → r.id ≡ f.id → loaded (updated r f) ≡ saved_over (some r) f
loaded-updated r f e i = record f {
  id = e i;
  scope = coalesce_twice f.scope r.scope i;
  depth = coalesce_twice f.depth r.depth i;
  test_strategy = coalesce_twice f.test_strategy r.test_strategy i;
  execution_mode = coalesce_twice f.execution_mode r.execution_mode i;
  autonomy_mode = coalesce_twice f.autonomy_mode r.autonomy_mode i;
}

load_row-put_same :
    (f : Feature) (rows : List FeatureRow)
    → load_row f.id (put_feature f rows) ≡ some (saved_over (row_at f.id rows) f)
unfolding put_feature
load_row-put_same f [] = rw (beq_refl f.id) (ap some (loaded-row_of f))
load_row-put_same f (r ∷ rs) = elim (Bool-cases (r.id == f.id)) [
  | inr other ↦ rw (other, other) (load_row-put_same f rs)
  | inl same ↦
      let e : r.id ≡ f.id = (string_eq.beq_iff r.id f.id).0 same in
      rw (same, same) (ap some (loaded-updated r f e))
]

load_row-put_other :
    (f : Feature) (rows : List FeatureRow) (id : String)
    → (f.id == id) ≡ false
    → load_row id (put_feature f rows) ≡ load_row id rows
unfolding put_feature
load_row-put_other f [] id h = rw h refl
load_row-put_other f (r ∷ rs) id h = elim (Bool-cases (r.id == f.id)) [
  | inl same ↦
      let at : (r.id == id) ≡ false = rw ((string_eq.beq_iff r.id f.id).0 same) h in
      rw (same, at) refl
  | inr other ↦ elim (Bool-cases (r.id == id)) [
    | inl here ↦ rw (other, here) refl
    | inr there ↦ rw (other, there) (load_row-put_other f rs id h)
  ]
]

-- On a database that answers, a feature that was saved is loaded as it was saved, except that where
-- its scope, depth, test strategy, execution mode or autonomy mode is empty, what its row had in
-- that column before is loaded; every other feature is loaded as before the save.
pub load_feature_state-save :
    (db : Database) (f : Feature) (id : String)
    → db.up ≡ true
    → load_feature_state (save_feature_state db f).0 id ≡ (
        if f.id == id
        then some (saved_over (row_at f.id db.features) f)
        else load_feature_state db id)
unfolding load_feature_state save_feature_state
load_feature_state-save db f id up = elim (Bool-cases (f.id == id)) [
  | inl same ↦
      rw (up, same)
        (ap (λ x. load_row x (put_feature f db.features)) (sym ((string_eq.beq_iff f.id id).0 same))
          ∙ load_row-put_same f db.features)
  | inr other ↦ rw (up, other) (load_row-put_other f db.features id other)
]
