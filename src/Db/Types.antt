-- ===== src/Db/Types.antt =====
-- internal/db/stage_store.go, audit_bolt_store.go, outcome_store.go: the rows of the tables.
-- The serial `id` columns are left out: no query that is modelled reads them. A time is a number,
-- and a nullable time is an `Option`.
use devteam.Prelude.{
  Bool, Eq, List, Option, String, Text, arith, true, ℕ, ◌≡◌, ◌↔◌, ◌==◌, nat_eq, string_eq, text_eq,
}
use devteam.Stage.Status.{Status}
use devteam.Feature.Types.{Feature, Status as FeatureStatus}

pub record StageDefinition : Type 0 where
  pub id : String
  pub phase : String
  pub name : String
  pub description : String
  pub lead_agent : String
  pub supporting_agents : List String
  pub key_artifacts : List String
  pub condition : String
  pub scopes : List String
  pub reviewer : String
  pub sort_order : ℕ

pub record FeatureStage : Type 0 where
  pub feature_id : String
  pub stage_id : String
  pub bolt_number : ℕ
  pub status : Status
  pub revision_count : ℕ
  pub started_at : Option ℕ
  pub completed_at : Option ℕ

-- The status texts of the bolts table.
pub data BoltStatus : Type 0 where
  pending in_progress completed failed : BoltStatus

abbrev index : BoltStatus → ℕ
index pending = 0
index in_progress = 1
index completed = 2
index failed = 3

pub bolt_index_iff : (a b : BoltStatus) → ((index a == index b) ≡ true) ↔ (a ≡ b)
bolt_index_iff a b = ground arith

instance abbrev pub bolt_status_eq : Eq BoltStatus
bolt_status_eq = record { beq = λ a b. index a == index b; beq_iff = bolt_index_iff }

pub record BoltRow : Type 0 where
  pub feature_id : String
  pub bolt_number : ℕ
  pub unit_ids : List Text
  pub depends_on : List ℕ
  pub status : BoltStatus
  pub is_walking_skeleton : Bool
  pub created_at : ℕ

pub record OutcomeRow : Type 0 where
  pub feature_id : String
  pub phase : String
  pub outcome : String
  pub target : String
  pub notes : String
  pub created_at : ℕ

-- The text of an event, as its format and arguments.
pub data Details : Type 0 where
  text : String → Details
  out_of_scope : (scope : String) → Details
  auto_approved : (mode : String) → Details
  skipped_stages : (target_idx start_idx : ℕ) → Details
  auth_failed : Details
  reviewed : (reviewer verdict : String) → Details
  bolt_started : ℕ → (is_walking_skeleton : Bool) → Details
  bolt_failed bolt_halted : ℕ → (stage_id : String) → Details
  bolt_completed : ℕ → Details
  autonomy_set : (mode : String) → Details
  batch_gate : (bolts : List ℕ) → Details
  branch_merged : (name branch : String) → Details

-- The time and the actor of an event are left out; the events stand in the order of insertion.
pub record AuditEvent : Type 0 where
  pub feature_id : String
  pub event_type : String
  pub stage_id : String
  pub phase : String
  pub details : Details

-- A row of the features table: its columns, as far as a load reads them, current_phase, and the
-- feature that is written in JSON, `none` where that column is empty.
pub record FeatureRow : Type 0 where
  pub id : String
  pub title : String
  pub status : FeatureStatus
  pub current_phase : String
  pub priority : ℕ
  pub scope : String
  pub depth : String
  pub test_strategy : String
  pub execution_mode : String
  pub autonomy_mode : String
  pub feature_data : Option Feature

-- The tables. `up` says whether the server answers: if not, every query fails and no statement
-- changes anything.
pub record Database : Type 0 where
  pub up : Bool
  pub features : List FeatureRow
  pub stage_definitions : List StageDefinition
  pub feature_stages : List FeatureStage
  pub bolts : List BoltRow
  pub outcomes : List OutcomeRow
  pub audit_events : List AuditEvent
