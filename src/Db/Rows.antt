-- ===== src/Db/Rows.antt =====
-- internal/db/stage_store.go: what the statements on feature_stages do to its rows.
use mathlib.Core.Option
use mathlib.Core.List.{append-nil, append_assoc}
use devteam.Prelude.{
  All, All-map, Bool, Bool-cases, List, Option, String, [], any, any-append, arith, beq_refl,
  change, find, inl, inr, refl, sym, true, ℕ, ◌≡◌, ◌∙◌, ◌&&◌, ◌∷◌, ◌++◌, ◌==◌, if◌then◌else◌,
  nat_eq, string_eq, text_eq,
}
use text.Mathlib.TextEquality.{eq_iff}
use devteam.Stage.Status.{Status}
use devteam.Db.Types.{StageDefinition, FeatureStage, Database}
use devteam.Db.Stages.{
  is_row, fresh_row, insert_row, insert_rows, written, get_feature_stage_for_bolt,
  update_feature_stage_for_bolt, get_feature_stage, update_feature_stage,
}

-- Whether two keys of feature_stages are one.
abbrev pub same_key : String → String → ℕ → String → String → ℕ → Bool
same_key f s b f' s' b' = f == f' && s == s' && b == b'

find-change :
    (f s : String) (b : ℕ) (f' s' : String) (b' : ℕ) (st : Status) (n : ℕ) (sa ca : Option ℕ)
    (rows : List FeatureStage)
    → find (is_row f' s' b') (change (is_row f s b) (written st n sa ca) rows) ≡ (
        if same_key f s b f' s' b'
        then Option.map (written st n sa ca) (find (is_row f' s' b') rows)
        else find (is_row f' s' b') rows)
find-change f s b f' s' b' st n sa ca [] = ground arith
find-change f s b f' s' b' st n sa ca (r ∷ rs) = ground (
  arith,
  eq_iff r.feature_id f,
  eq_iff r.feature_id f',
  eq_iff f f',
  eq_iff r.stage_id s,
  eq_iff r.stage_id s',
  eq_iff s s',
  find-change f s b f' s' b' st n sa ca rs,
)

-- A row with other values in its four columns.
abbrev pub with_values : Status → ℕ → Option ℕ → Option ℕ → FeatureStage → FeatureStage
with_values st n sa ca r = record r {
  status = st;
  revision_count = n;
  started_at = sa;
  completed_at = ca;
}

-- After an update a row is read back with the status, the count of revisions and the two times that
-- were given, and with nothing else changed; every other row, of this
-- feature or another, is read as before. Without a server nothing changes.
pub get-update :
    (db : Database) (f s : String) (b : ℕ) (f' s' : String) (b' : ℕ) (st : Status) (n : ℕ)
    (sa ca : Option ℕ)
    → get_feature_stage_for_bolt (update_feature_stage_for_bolt db f s b st n sa ca).0 f' s' b' ≡ (
        if same_key f s b f' s' b'
        then Option.map (with_values st n sa ca) (get_feature_stage_for_bolt db f' s' b')
        else get_feature_stage_for_bolt db f' s' b')
unfolding get_feature_stage_for_bolt update_feature_stage_for_bolt
get-update db f s b f' s' b' st n sa ca =
    ground (arith, find-change f s b f' s' b' st n sa ca db.feature_stages)

-- The two stores for shared stages are those for bolts at bolt number 0.
pub get_feature_stage-bolt :
    (db : Database) (f s : String) → get_feature_stage db f s ≡ get_feature_stage_for_bolt db f s 0
unfolding get_feature_stage get_feature_stage_for_bolt
get_feature_stage-bolt db f s = refl

pub update_feature_stage-bolt :
    (db : Database) (f s : String) (st : Status) (n : ℕ) (sa ca : Option ℕ)
    → update_feature_stage db f s st n sa ca ≡ update_feature_stage_for_bolt db f s 0 st n sa ca
unfolding update_feature_stage update_feature_stage_for_bolt
update_feature_stage-bolt db f s st n sa ca = refl

module _ (wanted : String → Bool) (f : String) (b : ℕ) where
  -- What the loop has added: fresh rows of the feature and bolt, for stages of the list that are
  -- wanted.
  abbrev pub IsAdded : List StageDefinition → FeatureStage → Type 0
  IsAdded ss r =
      (r ≡ fresh_row f r.stage_id b)
      × (wanted r.stage_id ≡ true)
      × (any (λ s. s.id == r.stage_id) ss ≡ true)

  IsAdded-later :
      (s : StageDefinition) (ss : List StageDefinition) (r : FeatureStage)
      → IsAdded ss r
      → IsAdded (s ∷ ss) r
  IsAdded-later s ss r (e, w, listed) = (e, w, ground (arith, listed))

  pub insert_rows-append :
      (ss : List StageDefinition) (rows : List FeatureStage)
      → (added : List FeatureStage) × (insert_rows wanted f b ss rows ≡ rows ++ added)
        × All (IsAdded ss) added
  unfolding insert_rows
  insert_rows-append [] rows = ([], sym (append-nil rows), tt)
  insert_rows-append (s ∷ ss) rows = elim (Bool-cases (wanted s.id)) [
    | inr out ↦
        let (added, e, all) = insert_rows-append ss rows in
        rw out (added, e, All-map _ _ added (IsAdded-later s ss) all)
    | inl wants ↦ elim (Bool-cases (any (is_row f s.id b) rows)) [
      | inl old ↦
          let (added, e, all) = insert_rows-append ss rows in
          rw (wants, old) (added, e, All-map _ _ added (IsAdded-later s ss) all)
      | inr new ↦
          let (added, e, all) = insert_rows-append ss (rows ++ fresh_row f s.id b ∷ []) in
          rw (wants, new)
            (
              fresh_row f s.id b ∷ added,
              e ∙ append_assoc rows (fresh_row f s.id b ∷ []) added,
              ((refl, wants, rw (beq_refl s.id) refl), All-map _ _ added (IsAdded-later s ss) all),
            )
    ]
  ]

  any-fresh :
      (s : String) (rows : List FeatureStage) → any (is_row f s b) (insert_row f s b rows) ≡ true
  unfolding insert_row
  any-fresh s rows =
      ground (arith, any-append (is_row f s b) rows (fresh_row f s b ∷ []), beq_refl f, beq_refl s)

  any-insert_rows :
      (p : FeatureStage → Bool) (ss : List StageDefinition) (rows : List FeatureStage)
      → any p rows ≡ true
      → any p (insert_rows wanted f b ss rows) ≡ true
  any-insert_rows p ss rows h =
      let (added, e, all) = insert_rows-append ss rows in rw (e, any-append p rows added, h) refl

  pub insert_rows-present :
      (ss : List StageDefinition) (rows : List FeatureStage)
      → All
          (λ s. wanted s.id ≡ true → any (is_row f s.id b) (insert_rows wanted f b ss rows) ≡ true)
          ss
  unfolding insert_rows
  insert_rows-present [] rows = tt
  insert_rows-present (s ∷ ss) rows = (
    (λ w.
        rw w
          (any-insert_rows (is_row f s.id b) ss (insert_row f s.id b rows) (any-fresh s.id rows))),
    insert_rows-present ss (if wanted s.id then insert_row f s.id b rows else rows),
  )

  insert_rows_present_same :
      (ss : List StageDefinition) (rows : List FeatureStage)
      → All (λ s. wanted s.id ≡ true → any (is_row f s.id b) rows ≡ true) ss
      → insert_rows wanted f b ss rows ≡ rows
  unfolding insert_rows
  insert_rows_present_same [] rows h = refl
  insert_rows_present_same (s ∷ ss) rows (h, hs) = elim (Bool-cases (wanted s.id)) [
    | inr out ↦ rw out (insert_rows_present_same ss rows hs)
    | inl wants ↦ rw (wants, h wants) (insert_rows_present_same ss rows hs)
  ]

  pub insert_rows_idem :
      (ss : List StageDefinition) (rows : List FeatureStage)
      → insert_rows wanted f b ss (insert_rows wanted f b ss rows) ≡ insert_rows wanted f b ss rows
  insert_rows_idem ss rows =
      insert_rows_present_same ss (insert_rows wanted f b ss rows) (insert_rows-present ss rows)
