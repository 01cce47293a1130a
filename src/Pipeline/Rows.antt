-- ===== src/Pipeline/Rows.antt =====
-- internal/pipeline/stage_runner.go: the rows of feature_stages under the pipeline's helpers.
use mathlib.Core.Option
use devteam.Prelude.{
  Option, String, ap, arith, beq_refl, refl, suc, zero, ℕ, ◌≡◌, ◌∙◌, if◌then◌else◌,
}
use devteam.Stage.Status.{Status}
use devteam.Db.Types.{Details}
use devteam.Db.Stages.{written}
use devteam.Db.Events.{record_audit_event}
use devteam.Db.Rows.{same_key, get-update, get_feature_stage-bolt, update_feature_stage-bolt}
use devteam.Db.Stages.{get_feature_stage_for_bolt, update_feature_stage_for_bolt}
use devteam.Pipeline.System.{
  Call, System, call, audit, get_feature_stage_row, update_feature_stage_row,
}

-- A row read through either store is the row of the bolt store.
pub get_row-bolt :
    (sys : System) (f s : String) (b : ℕ)
    → get_feature_stage_row sys f s b ≡ get_feature_stage_for_bolt sys.db f s b
unfolding get_feature_stage_row
get_row-bolt sys f s zero = get_feature_stage-bolt sys.db f s
get_row-bolt sys f s (suc b) = ground arith

update_row-bolt :
    (sys : System) (f s : String) (b : ℕ) (st : Status) (n : ℕ) (sa ca : Option ℕ)
    → (update_feature_stage_row f s b st n sa ca sys).db
      ≡ (update_feature_stage_for_bolt sys.db f s b st n sa ca).0
unfolding update_feature_stage_row
update_row-bolt sys f s zero st n sa ca =
    ap (λ r. r.0) (update_feature_stage-bolt sys.db f s st n sa ca)
update_row-bolt sys f s (suc b) st n sa ca = ground arith

-- Reading any row after writing one.
pub get_row-update :
    (sys : System) (f s : String) (b : ℕ) (f' s' : String) (b' : ℕ) (st : Status) (n : ℕ)
    (sa ca : Option ℕ)
    → get_feature_stage_row (update_feature_stage_row f s b st n sa ca sys) f' s' b' ≡ (
        if same_key f s b f' s' b'
        then Option.map (written st n sa ca) (get_feature_stage_row sys f' s' b')
        else get_feature_stage_row sys f' s' b')
get_row-update sys f s b f' s' b' st n sa ca =
    rw (get_row-bolt, get_row-bolt sys f' s' b', update_row-bolt)
      (get-update sys.db f s b f' s' b' st n sa ca)

pub get_row-update_self :
    (sys : System) (f s : String) (b : ℕ) (st : Status) (n : ℕ) (sa ca : Option ℕ)
    → get_feature_stage_row (update_feature_stage_row f s b st n sa ca sys) f s b
      ≡ Option.map (written st n sa ca) (get_feature_stage_row sys f s b)
get_row-update_self sys f s b st n sa ca =
    get_row-update sys f s b f s b st n sa ca ∙ rw (beq_refl f, beq_refl s, beq_refl b)

-- Neither an audit event nor a call changes a row.
pub get_row-audit :
    (sys : System) (g e t p : String) (d : Details) (f s : String) (b : ℕ)
    → get_feature_stage_row (audit g e t p d sys) f s b ≡ get_feature_stage_row sys f s b
unfolding audit record_audit_event get_feature_stage_for_bolt
get_row-audit sys g e t p d f s b = rw (get_row-bolt, get_row-bolt sys f s b) (ground arith)

pub get_row-call :
    (sys : System) (c : Call) (f s : String) (b : ℕ)
    → get_feature_stage_row (call c sys) f s b ≡ get_feature_stage_row sys f s b
unfolding get_feature_stage_row
get_row-call sys c f s b = refl

pub ruleset untouched_rows = (get_row-audit, get_row-call)
