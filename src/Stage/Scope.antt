-- ===== src/Stage/Scope.antt =====
-- internal/stage/scope.go and the helpers of internal/stage/definitions.go: the nine scopes.
pub mod Detect
use devteam.Prelude.{
  Bool, List, Option, String, [], elem, false, none, some, true, ℕ, ◌∷◌, ◌==◌, if◌then◌else◌,
  nat_eq, string_eq,
}

abbrev pub scope_enterprise : String
scope_enterprise = "enterprise"

abbrev pub scope_feature : String
scope_feature = "feature"

abbrev pub scope_mvp : String
scope_mvp = "mvp"

abbrev pub scope_poc : String
scope_poc = "poc"

abbrev pub scope_bugfix : String
scope_bugfix = "bugfix"

abbrev pub scope_refactor : String
scope_refactor = "refactor"

abbrev pub scope_infra : String
scope_infra = "infra"

abbrev pub scope_security_patch : String
scope_security_patch = "security-patch"

abbrev pub scope_workshop : String
scope_workshop = "workshop"

abbrev pub depth_minimal : String
depth_minimal = "minimal"

abbrev pub depth_standard : String
depth_standard = "standard"

abbrev pub depth_comprehensive : String
depth_comprehensive = "comprehensive"

abbrev pub cond_always : String
cond_always = "ALWAYS"

abbrev pub cond_conditional : String
cond_conditional = "CONDITIONAL"

abbrev pub cond_brownfield : String
cond_brownfield = "BROWNFIELD"

abbrev pub cond_user_facing : String
cond_user_facing = "USER_FACING"

abbrev pub cond_ui_project : String
cond_ui_project = "UI_PROJECT"

abbrev pub cond_per_bolt : String
cond_per_bolt = "PER_BOLT"

abbrev pub cond_once_at_end : String
cond_once_at_end = "ONCE_AT_END"

pub record ScopeInfo : Type 0 where
  pub name : String
  pub stages : ℕ
  pub default_depth : String
  pub default_test_str : String
  pub use_case : String

-- The source's literal lists the fields by position.
abbrev info : String → ℕ → String → String → String → ScopeInfo
info n s d t u = record {
  name = n;
  stages = s;
  default_depth = d;
  default_test_str = t;
  use_case = u;
}

-- The test strategies have the texts of the depths.
abbrev pub all_scopes : List ScopeInfo
all_scopes =
    info scope_enterprise 32 depth_comprehensive depth_comprehensive
      "Regulated enterprise feature, full audit trail"
    ∷ info scope_feature 32 depth_standard depth_standard "Default for new features"
    ∷ info scope_mvp 22 depth_standard depth_standard "Greenfield, skip late operations"
    ∷ info scope_poc 8 depth_minimal depth_minimal "Prove feasibility fast"
    ∷ info scope_bugfix 7 depth_minimal depth_minimal "Fix a specific bug"
    ∷ info scope_refactor 8 depth_minimal depth_minimal "Clean up existing code"
    ∷ info scope_infra 13 depth_standard depth_standard "Infrastructure change"
    ∷ info scope_security_patch 9 depth_minimal depth_minimal "CVE response"
    ∷ info scope_workshop 25 depth_standard depth_minimal "AI-DLC workshop or training session"
    ∷ []

abbrev valid_among : String → List ScopeInfo → Bool
valid_among s [] = false
valid_among s (sc ∷ scs) = if sc.name == s then true else valid_among s scs

unfoldable pub is_valid_scope : String → Bool
is_valid_scope s = valid_among s all_scopes

abbrev info_among : String → List ScopeInfo → Option ScopeInfo
info_among s [] = none
info_among s (sc ∷ scs) = if sc.name == s then some sc else info_among s scs

unfoldable pub get_scope_info : String → Option ScopeInfo
get_scope_info s = info_among s all_scopes

-- `allScopes` of definitions.go.
abbrev pub all_scope_names : List String
all_scope_names =
    scope_enterprise ∷ scope_feature ∷ scope_mvp ∷ scope_poc ∷ scope_bugfix ∷ scope_refactor
    ∷ scope_infra ∷ scope_security_patch ∷ scope_workshop ∷ []

abbrev without : List String → List String → List String
without exclude [] = []
without exclude (s ∷ ss) = if elem s exclude then without exclude ss else s ∷ without exclude ss

abbrev pub all_minus : List String → List String
all_minus exclude = without exclude all_scope_names
