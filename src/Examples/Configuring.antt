-- ===== src/Examples/Configuring.antt =====
-- Two configured providers.
use devteam.Prelude.{
  Bool, List, Option, String, [], false, find, keep, length, none, refl, some, true, ◌≤◌, ◌≡◌, ◌≢◌,
  ◌∷◌,
}
use devteam.Config.Types.{ProviderConfig, ResolvedProvider, derive_key_state, strip_dollar}
use devteam.Config.Merge.{merge_providers, named}
use devteam.Config.Sorted.{Rising}
use devteam.Config.Merged.{db_of, or_else, merge_providers-IsUnion}
use devteam.Config.Tiers.{TierStore, resolve_tier}
use devteam.Config.Names.{name_gt}
use devteam.Db.Order.{order_by}
use devteam.Config.Resolve.{
  Resolved, ok, failed, key_not_set, unknown_provider, resolve_provider, resolve_key,
  resolve_provider_for_role,
}
use devteam.Config.Tables.{
  Tables, upsert_provider, upsert_role_override, delete_provider, read_providers, tier_store,
}
use devteam.Config.Closed.{
  Op, do_upsert_provider, do_upsert_role_override, do_delete_provider, execute, IsClosed,
}
use devteam.Config.Known.{execute-IsKnown}
use devteam.Config.Keys.{Foretells, resolve_key-Foretells}

abbrev provider : String → Bool → String → ProviderConfig
provider name enabled key = record {
  name = name;
  display_name = name;
  enabled = enabled;
  base_url = "https://example.com";
  api_key_env = key;
  default_model_id = "small";
  npm_adapter = "";
  env_var_supported = true;
  preset_id = "";
  models = [];
  key_state = "";
}

abbrev in_db : List ProviderConfig
in_db = provider "openai" true "$OPENAI" ∷ provider "anthropic" true "" ∷ []

abbrev in_yaml : List ProviderConfig
in_yaml = provider "openai" false "" ∷ provider "local" true "$" ∷ []

abbrev tiers : TierStore
tiers = record {
  tier_models = some (
      record { tier = "opus"; provider_name = "openai"; model_id = "big" }
      ∷ record { tier = "opus"; provider_name = "anthropic"; model_id = "large" }
      ∷ []);
  role_overrides = some [];
}

-- No variable is set.
abbrev unset : String → String
unset name = ""

abbrev roster : String → Option String
roster role = some "opus"

-- The database wins, and the list is sorted.
merged :
    merge_providers (some (some in_db)) in_yaml
    ≡ provider "anthropic" true ""
      ∷ provider "local" true "$"
      ∷ provider "openai" true "$OPENAI"
      ∷ []
unfolding merge_providers name_gt
merged = refl

abbrev answer_of : Resolved (Option ResolvedProvider) → Option String
answer_of (failed e) = none
answer_of (ok none) = some "default"
answer_of (ok (some rp)) = some rp.model

-- The first provider by name that has the tier, and not the first of the list.
resolved_model :
    answer_of (resolve_provider unset "architect" in_db [] (some tiers) (some roster))
    ≡ some "large"
unfolding resolve_provider resolve_tier order_by name_gt
resolved_model = refl

-- A provider whose key is not set can be chosen by an override and then fails.
overridden :
    resolve_provider unset "architect" in_db
      (record { role = "architect"; provider_name = "openai"; model_id = "" } ∷ [])
      (some tiers)
      (some roster)
    ≡ failed (key_not_set "openai")
unfolding resolve_provider
overridden = refl

-- A dollar sign alone needs no key by its state, and fails.
bare_state :
    (derive_key_state unset "$" ≡ "not_required")
    × (resolve_key unset (provider "local" true "$") "small" ≡ failed (key_not_set "local"))
unfolding derive_key_state resolve_key strip_dollar
bare_state = (refl, refl)

merge_providers-IsUnion_example :
    let merged_list = merge_providers (some (some in_db)) in_yaml in
    Rising merged_list
    × ((n : String)
        → (length (keep (named n) merged_list) ≤ 1)
          × (find (named n) merged_list
              ≡ or_else (find (named n) (db_of (some (some in_db)))) (find (named n) in_yaml)))
merge_providers-IsUnion_example = merge_providers-IsUnion (some (some in_db)) in_yaml

resolve_key-Foretells_example :
    Foretells unset (provider "local" true "$") "small" (derive_key_state unset "$")
resolve_key-Foretells_example = resolve_key-Foretells unset (provider "local" true "$") "small"

-- An empty database, to which a provider and an override for it are written, and that stops to
-- answer before the provider is deleted.
abbrev nothing : Tables
nothing = record {
  up = true;
  providers = [];
  provider_models = [];
  tier_models = [];
  role_overrides = [];
}

abbrev writes : List (Bool × Op)
writes =
    (true, do_upsert_provider (provider "openai" true ""))
    ∷ (true, do_upsert_role_override "architect" "openai" "big")
    ∷ (false, do_delete_provider "openai")
    ∷ []

-- The answer of the table is `none` as long as it is down, and the override is used once it is up.
written_override :
    answer_of (
      resolve_provider_for_role unset "architect"
        (some (read_providers unset (λ a b. true) (record (execute writes nothing) { up = true })))
        (some (tier_store (record (execute writes nothing) { up = true })))
        roster)
    ≡ some "big"
unfolding resolve_provider_for_role read_providers tier_store upsert_provider upsert_role_override
    delete_provider order_by name_gt
written_override = refl

nothing-IsClosed : IsClosed nothing
nothing-IsClosed = record { tiers = tt; overrides = tt }

execute-IsKnown_example :
    let s = execute writes nothing in
    IsClosed s
    × (resolve_provider_for_role unset "architect"
          (some (read_providers unset (λ a b. true) s))
          (some (tier_store s))
          roster
        ≢ failed (unknown_provider "openai"))
execute-IsKnown_example =
    execute-IsKnown unset (λ a b. true) writes nothing roster "architect" "openai" nothing-IsClosed
