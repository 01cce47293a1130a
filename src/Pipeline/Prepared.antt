-- ===== src/Pipeline/Prepared.antt =====
-- internal/pipeline/bolts.go: the bolts that PrepareBolts leaves.
use mathlib.Core.List.{append-nil, append_assoc}
use devteam.Prelude.{
  All, Bool, Bool-cases, List, Option, String, Text, [], any, ap, arith, beq_refl, false, inl, inr,
  keep, leb, length, none, refl, suc, sym, true, ℕ, ◌≡◌, ◌∙◌, ◌≢◌, ◌⊎◌, ◌∷◌, ◌++◌, ◌==◌,
  if◌then◌else◌, nat_eq, string_eq, text_eq,
}
use devteam.Feature.Types.{Feature}
use devteam.Db.Types.{Database, BoltRow, BoltStatus}
use devteam.Db.Order.{order_by, insert}
use devteam.Db.Bolts.{create_bolt, get_bolts, bolt_order}
use devteam.Pipeline.System.{System, Env, Error}
use devteam.Pipeline.Decide.{bolts_of}
use devteam.Pipeline.Units.{extract_units, extract_bolt_dependencies}
use devteam.Pipeline.Dependencies.{
  IsOtherBolt, IsEdge, deps_of-IsOtherBolt, dependencies-IsEdge, IsEdge-le,
  length-or_single_unit-le,
}
use devteam.Pipeline.Prepare.{
  deps_of, create_bolts, planned_units, or_single_unit, prepare_from, prepare_bolts,
}

-- Bolt `n` of the feature for one unit; the first is the walking skeleton.
pub record IsBolt (f : String) (total n : ℕ) (u : Text) (b : BoltRow) : Type 0 where
  pub owner : b.feature_id ≡ f
  pub number : b.bolt_number ≡ n
  pub one_unit : b.unit_ids ≡ u ∷ []
  pub waits : b.status ≡ BoltStatus.pending
  pub skeleton : b.is_walking_skeleton ≡ (n == 1)
  pub free : (n ≢ 1) ⊎ (b.depends_on ≡ [])
  pub others : All (IsOtherBolt total n) b.depends_on

-- The bolts are those of the units, numbered in order from `n`.
abbrev pub ArePlanned : String → ℕ → ℕ → List Text → List BoltRow → Type 0
ArePlanned f total n [] [] = Unit
ArePlanned f total n (u ∷ us) (b ∷ bs) = IsBolt f total n u b × ArePlanned f total (suc n) us bs
ArePlanned f total n _ _ = ⊥

-- The rows that the loop appends.
abbrev pub new_bolt : ℕ → String → List (ℕ × ℕ) → ℕ → Text → BoltRow
new_bolt now f es n u = record {
  feature_id = f;
  bolt_number = n;
  unit_ids = u ∷ [];
  depends_on = if n == 1 then [] else deps_of n es;
  status = BoltStatus.pending;
  is_walking_skeleton = n == 1;
  created_at = now;
}

abbrev pub new_bolts : ℕ → String → List (ℕ × ℕ) → ℕ → List Text → List BoltRow
new_bolts now f es n [] = []
new_bolts now f es n (u ∷ us) = new_bolt now f es n u ∷ new_bolts now f es (suc n) us

pub create_bolt-append :
    (db : Database) (now : ℕ) (f : String) (n : ℕ) (us : List Text) (deps : List ℕ) (first : Bool)
    → db.up ≡ true
    → let row : BoltRow = record {
      feature_id = f;
      bolt_number = n;
      unit_ids = us;
      depends_on = deps;
      status = BoltStatus.pending;
      is_walking_skeleton = first;
      created_at = now;
    } in
      create_bolt db now f n us deps first ≡ (record db { bolts = db.bolts ++ row ∷ [] }, true)
unfolding create_bolt
create_bolt-append db now f n us deps first up = ground (arith, up)

create_bolts-append :
    (env : Env) (f : String) (es : List (ℕ × ℕ)) (n : ℕ) (us : List Text) (db : Database)
    → ((m : ℕ) → env.is_lost m ≡ false)
    → db.up ≡ true
    → create_bolts env f es n us db
      ≡ (record db { bolts = db.bolts ++ new_bolts env.now f es n us }, none)
unfolding create_bolts
create_bolts-append env f es n [] db safe up =
    ap (λ bs. (record db { bolts = bs }, none)) (sym (append-nil db.bolts))
create_bolts-append env f es n (u ∷ us) db safe up =
    let row = new_bolt env.now f es n u in
    rw (safe n, create_bolt-append db env.now f n (u ∷ []) row.depends_on (n == 1) up)
      (create_bolts-append env f es (suc n) us (record db { bolts = db.bolts ++ row ∷ [] }) safe up
        ∙ ap (λ bs. (record db { bolts = bs }, none))
            (append_assoc db.bolts (row ∷ []) (new_bolts env.now f es (suc n) us)))

new_bolt-IsBolt :
    (now : ℕ) (f : String) (es : List (ℕ × ℕ)) (total n : ℕ) (u : Text)
    → All (IsEdge total) es
    → IsBolt f total n u (new_bolt now f es n u)
new_bolt-IsBolt now f es total n u h = elim (Bool-cases (n == 1)) [
  | inl first ↦ record {
    owner = refl;
    number = refl;
    one_unit = refl;
    waits = refl;
    skeleton = refl;
    free = inr (rw first refl);
    others = rw first tt;
  }
  | inr later ↦ record {
    owner = refl;
    number = refl;
    one_unit = refl;
    waits = refl;
    skeleton = refl;
    free = inl (ground (arith, later));
    others = rw later (deps_of-IsOtherBolt total n es h);
  }
]

pub new_bolts-ArePlanned :
    (now : ℕ) (f : String) (es : List (ℕ × ℕ)) (total n : ℕ) (us : List Text)
    → All (IsEdge total) es
    → ArePlanned f total n us (new_bolts now f es n us)
new_bolts-ArePlanned now f es total n [] h = tt
new_bolts-ArePlanned now f es total n (u ∷ us) h =
    (new_bolt-IsBolt now f es total n u h, new_bolts-ArePlanned now f es total (suc n) us h)

keep-new_bolts :
    (now : ℕ) (f : String) (es : List (ℕ × ℕ)) (n : ℕ) (us : List Text)
    → keep (λ b. b.feature_id == f) (new_bolts now f es n us) ≡ new_bolts now f es n us
keep-new_bolts now f es n [] = refl
keep-new_bolts now f es n (u ∷ us) = rw (beq_refl f, keep-new_bolts now f es (suc n) us) refl

keep-none : (p : BoltRow → Bool) (bs : List BoltRow) → any p bs ≡ false → keep p bs ≡ []
keep-none p [] h = refl
keep-none p (b ∷ bs) h = ground (arith, h, keep-none p bs)

keep-append :
    (p : BoltRow → Bool) (old new : List BoltRow)
    → any p old ≡ false
    → keep p (old ++ new) ≡ keep p new
keep-append p [] new h = refl
keep-append p (b ∷ old) new h = ground (arith, h, keep-append p old new)

order_by-new_bolts :
    (now : ℕ) (f : String) (es : List (ℕ × ℕ)) (n : ℕ) (us : List Text)
    → order_by bolt_order (new_bolts now f es n us) ≡ new_bolts now f es n us
unfolding order_by
order_by-new_bolts now f es n [] = refl
order_by-new_bolts now f es n (u ∷ []) = refl
order_by-new_bolts now f es n (u ∷ v ∷ us) =
    let rest = order_by-new_bolts now f es (suc n) (v ∷ us) in
    let before : leb n (suc n) ≡ true = ground arith in
    ap (insert bolt_order (new_bolt now f es n u)) rest ∙ rw before refl

-- With bolts for the planned units there, nothing is prepared.
prepare_from-new_bolts :
    (now : ℕ) (f : String) (es : List (ℕ × ℕ)) (us : List Text) (created : Database × Option Error)
    (sys : System)
    → prepare_from (new_bolts now f es 1 (or_single_unit us)) created sys ≡ (sys, none)
prepare_from-new_bolts now f es [] created sys = refl
prepare_from-new_bolts now f es (u ∷ us) created sys = refl

module _ (f : String) (sys : System) (up : sys.db.up ≡ true)
    (fresh : any (λ b. b.feature_id == f) sys.db.bolts ≡ false) where
  pub bolts_of-fresh : bolts_of sys f ≡ []
  unfolding bolts_of get_bolts order_by
  bolts_of-fresh =
      rw up (ap (order_by bolt_order) (keep-none (λ b. b.feature_id == f) sys.db.bolts fresh))

  pub bolts_of-made :
      (now : ℕ) (es : List (ℕ × ℕ)) (us : List Text)
      → let made = new_bolts now f es 1 us in
        bolts_of (record sys { db = record (sys.db) { bolts = sys.db.bolts ++ made } }) f ≡ made
  unfolding bolts_of get_bolts
  bolts_of-made now es us =
      let made = new_bolts now f es 1 us in
      let kept =
        keep-append (λ b. b.feature_id == f) sys.db.bolts made fresh
        ∙ keep-new_bolts now f es 1 us in
      rw up (ap (order_by bolt_order) kept ∙ order_by-new_bolts now f es 1 us)

-- PrepareBolts for a feature that has no bolts succeeds on a database that answers, also to each
-- insertion. It leaves one pending bolt for each unit of the artifact, or for the one unit `unit-1`
-- where this names none: numbered from 1 in their order, the first the walking skeleton without
-- dependencies, and each dependency the number of another of these bolts. A second call succeeds
-- and changes nothing.
pub prepare_bolts-ArePlanned :
    (env : Env) (is_space : ℕ → Bool) (unit_of_work dag : Option Text) (f : Feature) (sys : System)
    → sys.db.up ≡ true
    → ((n : ℕ) → env.is_lost n ≡ false)
    → any (λ b. b.feature_id == f.id) sys.db.bolts ≡ false
    → let units = planned_units is_space unit_of_work in
      let (after, err) = prepare_bolts env is_space unit_of_work dag f sys in
      ArePlanned f.id (length units) 1 units (bolts_of after f.id)
      × (err ≡ none)
      × (prepare_bolts env is_space unit_of_work dag f after ≡ (after, none))
unfolding prepare_bolts
prepare_bolts-ArePlanned env is_space unit_of_work dag f sys up safe fresh =
    let named = extract_units is_space unit_of_work in
    let es = extract_bolt_dependencies is_space dag named in
    let units = planned_units is_space unit_of_work in
    let made = new_bolts env.now f.id es 1 units in
    let after : System = record sys { db = record (sys.db) { bolts = sys.db.bolts ++ made } } in
    let none_there = bolts_of-fresh f.id sys up fresh in
    let all_made = create_bolts-append env f.id es 1 units sys.db safe up in
    let step : prepare_bolts env is_space unit_of_work dag f sys ≡ (after, none) =
      λ i. prepare_from (none_there i) (all_made i) sys in
    let bolts = bolts_of-made f.id sys up fresh env.now es units in
    let edges =
      IsEdge-le (length named) (length units) (length-or_single_unit-le named) es
        (dependencies-IsEdge is_space dag named) in
    rw step (
      rw bolts (new_bolts-ArePlanned env.now f.id es (length units) 1 units edges),
      refl,
      ap (λ bs. prepare_from bs (create_bolts env f.id es 1 units after.db) after) bolts
          ∙ prepare_from-new_bolts env.now f.id es named _ after,
    )
