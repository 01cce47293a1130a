-- ===== src/Db/Events.antt =====
-- internal/db/audit_bolt_store.go and outcome_store.go: the audit trail and the outcome signals.
use devteam.Prelude.{
  Bool, List, Option, String, [], false, keep, length, ltb, none, not, some, true, ℕ, ◌&&◌, ◌||◌,
  ◌∷◌, ◌++◌, ◌==◌, if◌then◌else◌, nat_eq, string_eq,
}
use devteam.Db.Types.{AuditEvent, Details, OutcomeRow, Database}

unfoldable pub record_audit_event :
    Database → String → String → String → String → Details → Database
record_audit_event db feature_id event_type stage_id phase details =
    if db.up
    then record db {
      audit_events =
          db.audit_events
          ++ record {
            feature_id = feature_id;
            event_type = event_type;
            stage_id = stage_id;
            phase = phase;
            details = details;
          }
            ∷ [];
    }
    else db

unfoldable pub save_outcome :
    Database → ℕ → String → String → String → String → String → Database × Bool
save_outcome db now feature_id phase outcome target notes =
    if db.up
    then (
      record db {
        outcomes =
            db.outcomes
            ++ record {
              feature_id = feature_id;
              phase = phase;
              outcome = outcome;
              target = target;
              notes = notes;
              created_at = now;
            }
              ∷ [];
      },
      true,
    )
    else (db, false)

abbrev pub of_phase : String → String → OutcomeRow → Bool
of_phase feature_id phase o = o.feature_id == feature_id && o.phase == phase

-- ORDER BY created_at DESC LIMIT 1; of two rows of one time the later insertion.
abbrev pub latest : List OutcomeRow → Option OutcomeRow
latest [] = none
latest (o ∷ os) = elim (latest os) [
  | none ↦ some o
  | some p ↦ some (if ltb p.created_at o.created_at then o else p)
]

-- `nil` where there is none, and also where the query fails.
unfoldable pub get_latest_outcome : Database → String → String → Option OutcomeRow
get_latest_outcome db feature_id phase =
    if db.up then latest (keep (of_phase feature_id phase) db.outcomes) else none

unfoldable pub delete_outcomes_for_phase : Database → String → String → Database × Bool
delete_outcomes_for_phase db feature_id phase =
    if db.up
    then (record db { outcomes = keep (λ o. not (of_phase feature_id phase o)) db.outcomes }, true)
    else (db, false)

-- The count that decideNextAction makes of a feature's merge events; `none` where it fails.
abbrev is_merge : String → AuditEvent → Bool
is_merge feature_id e =
    e.feature_id == feature_id
    && (e.event_type == "MERGED_TO_MAIN" || e.event_type == "MERGE_ATTEMPTED")

unfoldable pub count_merges : Database → String → Option ℕ
count_merges db feature_id =
    if db.up then some (length (keep (is_merge feature_id) db.audit_events)) else none
