-- ===== src/Pipeline/Partial.antt =====
-- internal/pipeline/bolts.go: what PrepareBolts leaves where the insertion of a bolt fails.
use mathlib.Core.List.{append-nil, append_assoc}
use devteam.Prelude.{
  Bool, List, Option, String, Text, [], any, ap, arith, false, length, none, refl, some, suc, sym,
  true, ℕ, ◌+◌, ◌<◌, ◌≡◌, ◌∙◌, ◌∷◌, ◌++◌, ◌==◌, nat_eq, string_eq, text_eq,
}
use devteam.Feature.Types.{Feature}
use devteam.Db.Types.{Database}
use devteam.Pipeline.System.{System, Env, creating_bolt}
use devteam.Pipeline.Decide.{bolts_of}
use devteam.Pipeline.Units.{extract_units, extract_bolt_dependencies}
use devteam.Pipeline.Dependencies.{dependencies-IsEdge, IsEdge-le, length-or_single_unit-le}
use devteam.Pipeline.Prepare.{create_bolts, planned_units, prepare_from, prepare_bolts}
use devteam.Pipeline.Prepared.{
  ArePlanned, new_bolt, new_bolts, create_bolt-append, new_bolts-ArePlanned, bolts_of-fresh,
  bolts_of-made,
}

-- The insertion of bolt `k` is the first that is lost.
abbrev pub LosesFirst : Env → ℕ → Type 0
LosesFirst env k = ((m : ℕ) → m < k → env.is_lost m ≡ false) × (env.is_lost k ≡ true)

-- The loop leaves the bolts before the one that is lost.
create_bolts-stops :
    (env : Env) (f : String) (es : List (ℕ × ℕ)) (k n : ℕ) (before behind : List Text) (u : Text)
    (db : Database)
    → LosesFirst env k
    → n + length before ≡ k
    → db.up ≡ true
    → create_bolts env f es n (before ++ u ∷ behind) db
      ≡ (record db { bolts = db.bolts ++ new_bolts env.now f es n before }, some (creating_bolt k))
unfolding create_bolts
create_bolts-stops env f es k n [] behind u db (kept, lost) here up =
    let at : n ≡ k = omega arith in
    rw (at, lost)
      (ap (λ bs. (record db { bolts = bs }, some (creating_bolt k))) (sym (append-nil db.bolts)))
create_bolts-stops env f es k n (v ∷ before) behind u db (kept, lost) here up =
    let row = new_bolt env.now f es n v in
    let sooner : n < k = omega arith in
    let next : suc n + length before ≡ k = omega arith in
    let db' : Database = record db { bolts = db.bolts ++ row ∷ [] } in
    rw (kept n sooner, create_bolt-append db env.now f n (v ∷ []) row.depends_on (n == 1) up)
      (create_bolts-stops env f es k (suc n) before behind u db' (kept, lost) next up
        ∙ ap (λ bs. (record db { bolts = bs }, some (creating_bolt k)))
            (append_assoc db.bolts (row ∷ []) (new_bolts env.now f es (suc n) before)))

-- Of a feature that has no bolts the units are planned, and the database answers but loses the
-- insertion of a bolt that is not the first. PrepareBolts returns the error that names it and leaves
-- the bolts before it, as they are planned. Every later call succeeds, at any time and whatever the
-- artifacts say then, and adds none of those that are missing.
pub prepare_bolts-stays_partial :
    (env later : Env) (is_space : ℕ → Bool) (unit_of_work dag unit_of_work' dag' : Option Text)
    (f : Feature) (sys : System) (v u : Text) (before behind : List Text)
    → planned_units is_space unit_of_work ≡ v ∷ before ++ u ∷ behind
    → LosesFirst env (2 + length before)
    → sys.db.up ≡ true
    → any (λ b. b.feature_id == f.id) sys.db.bolts ≡ false
    → let (after, err) = prepare_bolts env is_space unit_of_work dag f sys in
      let total = length (planned_units is_space unit_of_work) in
      ArePlanned f.id total 1 (v ∷ before) (bolts_of after f.id)
      × (err ≡ some (creating_bolt (2 + length before)))
      × (prepare_bolts later is_space unit_of_work' dag' f after ≡ (after, none))
unfolding prepare_bolts
prepare_bolts-stays_partial env later is_space unit_of_work dag unit_of_work' dag' f sys v u before
      behind units loses up fresh =
    let named = extract_units is_space unit_of_work in
    let es = extract_bolt_dependencies is_space dag named in
    let planned = planned_units is_space unit_of_work in
    let made = new_bolts env.now f.id es 1 (v ∷ before) in
    let after : System = record sys { db = record (sys.db) { bolts = sys.db.bolts ++ made } } in
    let k = 2 + length before in
    let none_there = bolts_of-fresh f.id sys up fresh in
    let stops =
      ap (λ us. create_bolts env f.id es 1 us sys.db) units
      ∙ create_bolts-stops env f.id es k 1 (v ∷ before) behind u sys.db loses (omega arith) up in
    let step : prepare_bolts env is_space unit_of_work dag f sys ≡ (after, some (creating_bolt k)) =
      λ i. prepare_from (none_there i) (stops i) sys in
    let bolts = bolts_of-made f.id sys up fresh env.now es (v ∷ before) in
    let edges =
      IsEdge-le (length named) (length planned) (length-or_single_unit-le named) es
        (dependencies-IsEdge is_space dag named) in
    let again =
      create_bolts later f.id
        (extract_bolt_dependencies is_space dag' (extract_units is_space unit_of_work')) 1
        (planned_units is_space unit_of_work') after.db in
    rw step (
      rw bolts (new_bolts-ArePlanned env.now f.id es (length planned) 1 (v ∷ before) edges),
      refl,
      ap (λ bs. prepare_from bs again after) bolts,
    )
