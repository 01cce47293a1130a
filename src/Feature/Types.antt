-- ===== src/Feature/Types.antt =====
-- internal/feature/types.go and feature.go: the feature.
-- A time is a number. The loose-idea and external-spec intake paths are the constants of the source.
use devteam.Prelude.{
  Bool, Eq, List, String, arith, leb, true, ℕ, ◌≡◌, ◌↔◌, ◌&&◌, ◌==◌, nat_eq, string_eq, text_eq,
}

pub data Status : Type 0 where
  draft in_progress gate_blocked passed failed done recirculated cancelled : Status
  waiting_feedback : Status

abbrev index : Status → ℕ
index draft = 0
index in_progress = 1
index gate_blocked = 2
index passed = 3
index failed = 4
index done = 5
index recirculated = 6
index cancelled = 7
index waiting_feedback = 8

pub feature_status_iff : (a b : Status) → ((index a == index b) ≡ true) ↔ (a ≡ b)
feature_status_iff a b = ground arith

instance abbrev pub feature_status_eq : Eq Status
feature_status_eq = record { beq = λ a b. index a == index b; beq_iff = feature_status_iff }

pub data IntakePath : Type 0 where
  loose_idea external_spec : IntakePath

pub record PreparedRepo : Type 0 where
  pub name : String
  pub url : String
  pub dir : String
  pub branch : String

pub record RepoRef : Type 0 where
  pub name : String
  pub url : String
  pub branch : String

pub record Feature : Type 0 where
  pub id : String
  pub title : String
  pub status : Status
  pub priority : ℕ
  pub intake_path : IntakePath
  pub spec_dir : String
  pub worktree_dir : String
  pub created_at : ℕ
  pub updated_at : ℕ
  pub dependencies : List String
  pub repos : List RepoRef
  pub prepared_repos : List PreparedRepo
  pub scope : String
  pub depth : String
  pub test_strategy : String
  pub execution_mode : String
  pub autonomy_mode : String
  pub current_stage : String
  pub current_bolt : ℕ

unfoldable pub is_valid_priority : ℕ → Bool
is_valid_priority p = leb 1 p && leb p 3
