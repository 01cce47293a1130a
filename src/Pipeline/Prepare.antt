-- ===== src/Pipeline/Prepare.antt =====
-- internal/pipeline/bolts.go: PrepareBolts. The artifacts are read from the specification, and
-- are arguments; an absent one and an empty one are the same.
use devteam.Prelude.{
  Bool, List, Option, String, Text, [], codes, none, some, suc, ℕ, ◌∷◌, ◌==◌, if◌then◌else◌, nat_eq,
  string_eq, text_eq,
}
use devteam.Feature.Types.{Feature}
use devteam.Db.Types.{Database, BoltRow}
use devteam.Db.Bolts.{create_bolt}
use devteam.Pipeline.System.{System, Env, Error, creating_bolt}
use devteam.Pipeline.Decide.{bolts_of}
use devteam.Pipeline.Units.{extract_units, extract_bolt_dependencies}

-- deps[boltNum]
abbrev pub deps_of : ℕ → List (ℕ × ℕ) → List ℕ
deps_of n [] = []
deps_of n ((a, b) ∷ es) = if a == n then b ∷ deps_of n es else deps_of n es

-- The loop over the bolts, of which each has one unit. Where an insertion fails, the bolts before
-- it stay.
unfoldable pub create_bolts :
    Env → String → List (ℕ × ℕ) → ℕ → List Text → Database → Database × Option Error
create_bolts env f edges n [] db = (db, none)
create_bolts env f edges n (u ∷ us) db =
    let deps = if n == 1 then [] else deps_of n edges in
    let (db', ok) = create_bolt db env.now f n (u ∷ []) deps (n == 1) in
    let rest = create_bolts env f edges (suc n) us db' in
    if env.is_lost n
    then (db, some (creating_bolt n))
    else if ok
    then rest
    else (db', some (creating_bolt n))

abbrev pub or_single_unit : List Text → List Text
or_single_unit [] = codes "unit-1" ∷ []
or_single_unit (u ∷ us) = u ∷ us

abbrev pub planned_units : (ℕ → Bool) → Option Text → List Text
planned_units is_space unit_of_work = or_single_unit (extract_units is_space unit_of_work)

-- PrepareBolts by the bolts that are there; `created` is what the loop would give.
abbrev pub prepare_from : List BoltRow → Database × Option Error → System → System × Option Error
prepare_from [] created sys = (record sys { db = created.0 }, created.1)
prepare_from (b ∷ bs) created sys = (sys, none)

unfoldable pub prepare_bolts :
    Env → (ℕ → Bool) → Option Text → Option Text → Feature → System → System × Option Error
prepare_bolts env is_space unit_of_work dag f sys =
    let edges = extract_bolt_dependencies is_space dag (extract_units is_space unit_of_work) in
    let units = planned_units is_space unit_of_work in
    prepare_from (bolts_of sys f.id) (create_bolts env f.id edges 1 units sys.db) sys
