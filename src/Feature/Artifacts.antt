-- ===== src/Feature/Artifacts.antt =====
-- internal/feature/types.go: the names of artifacts. An artifact type is its text.
use devteam.Prelude.{
  Bool, List, Option, String, [], none, some, ◌||◌, ◌∷◌, ◌==◌, if◌then◌else◌, nat_eq, string_eq,
  text_eq,
}

abbrev one_of : String → String → String → Bool
one_of s a b = s == a || s == b

unfoldable pub parse_artifact_type : String → String
parse_artifact_type s =
    if one_of s "input_md" "input"
    then "input_md"
    else if one_of s "spec_md" "spec"
    then "spec_md"
    else if one_of s "acceptance_md" "acceptance"
    then "acceptance_md"
    else if one_of s "repos_yaml" "repos"
    then "repos_yaml"
    else if one_of s "plan_md" "plan"
    then "plan_md"
    else if one_of s "tasks_md" "tasks"
    then "tasks_md"
    else if s == "review_report"
    then "review_report"
    else if s == "test_report"
    then "test_report"
    else if s == "docs"
    then "docs"
    else if s == "data_model_md"
    then "data_model_md"
    else if s == "quickstart_md"
    then "quickstart_md"
    else if s == "contracts_dir"
    then "contracts_dir"
    else "spec_md"

abbrev pub canonical_artifact_aliases : List (String × String)
canonical_artifact_aliases =
    ("input", "input_md")
    ∷ ("spec", "spec_md")
    ∷ ("acceptance", "acceptance_md")
    ∷ ("repos", "repos_yaml")
    ∷ ("plan", "plan_md")
    ∷ ("tasks", "tasks_md")
    ∷ ("review_report", "review_report")
    ∷ ("test_report", "test_report")
    ∷ ("docs", "docs")
    ∷ ("data_model", "data_model_md")
    ∷ ("research", "research_md")
    ∷ ("quickstart", "quickstart_md")
    ∷ ("contracts", "contracts_dir")
    ∷ []

abbrev alias : String → List (String × String) → Option String
alias k [] = none
alias k ((j, t) ∷ m) = if j == k then some t else alias k m

-- `none` where the second result of the source is false.
unfoldable pub artifact_api_path_to_type : String → Option String
artifact_api_path_to_type api_path =
    if api_path == ""
    then none
    else elim (alias api_path canonical_artifact_aliases) [ some t ↦ some t | none ↦ some api_path ]
