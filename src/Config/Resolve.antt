-- ===== src/Config/Resolve.antt =====
-- internal/config/resolve.go: the provider and the model of a dispatch, and its caller in
-- internal/pipeline/pipeline.go.
use mathlib.Core.Option
use devteam.Prelude.{
  List, Option, String, [], find, none, some, ◌∷◌, ◌==◌, if◌then◌else◌, nat_eq, string_eq, text_eq,
}
use devteam.Config.Types.{ProviderConfig, RoleOverride, ResolvedProvider, strip_dollar}
use devteam.Config.Merge.{DbRead, named, merge_providers}
use devteam.Config.Tiers.{TierStore, enabled_of, resolve_tier}

pub data ResolveError : Type 0 where
  unknown_provider : String → ResolveError
  loading_tier : ResolveError
  key_not_set : String → ResolveError

-- `ok none` is the default of opencode.
pub data Resolved (A : Type 0) : Type 0 where
  ok : A → Resolved A
  failed : ResolveError → Resolved A

-- RoleTierLoader, `none` where the role cannot be loaded.
abbrev pub RoleTierLoader : Type 0
RoleTierLoader = String → Option String

-- A provider and the model it is asked for.
abbrev pub Choice : Type 0
Choice = Option (ProviderConfig × String)

unfoldable pub find_provider : List ProviderConfig → String → Option ProviderConfig
find_provider providers name = find (named name) providers

abbrev pub model_or_default : ProviderConfig → String → String
model_or_default p model = if model == "" then p.default_model_id else model

abbrev pub override_of : String → List RoleOverride → Option RoleOverride
override_of role overrides = find (λ o. o.role == role) overrides

-- Step 2.
unfoldable pub by_override : String → List ProviderConfig → List RoleOverride → Resolved Choice
unfolding find_provider
by_override role providers overrides = elim (override_of role overrides) [
  | none ↦ ok none
  | some ro ↦
      if ro.provider_name == "" then ok none else elim (find_provider providers ro.provider_name) [
        | none ↦ failed (unknown_provider ro.provider_name)
        | some p ↦ ok (some (p, model_or_default p ro.model_id))
      ]
]

abbrev pub tier_choice : List ProviderConfig → Option TierStore → String → Choice
tier_choice providers none tier = none
tier_choice providers (some store) tier =
    if tier == ""
    then none
    else Option.map (λ (p, m). (p, model_or_default p m)) (resolve_tier store tier providers)

-- Step 3, where no override chose.
unfoldable pub by_tier :
    String → List ProviderConfig → Option TierStore → Option RoleTierLoader → Resolved Choice
by_tier role providers store none = ok none
by_tier role providers store (some load) = elim (load role) [
  | none ↦ failed loading_tier
  | some tier ↦ ok (tier_choice providers store tier)
]

-- Step 4: one enabled provider and no other.
abbrev pub single : List ProviderConfig → Choice
single (p ∷ []) = some (p, p.default_model_id)
single _ = none

-- Step 6.
unfoldable pub resolve_key :
    (String → String) → ProviderConfig → String → Resolved (Option ResolvedProvider)
resolve_key getenv p model =
    if p.api_key_env == ""
    then ok (
        some (record {
          base_url = p.base_url;
          model = model;
          api_key_env = p.api_key_env;
          api_key_value = "";
        }))
    else let env_name = strip_dollar p.api_key_env in
      if getenv env_name == ""
      then failed (key_not_set p.name)
      else ok (
          some (record {
            base_url = p.base_url;
            model = model;
            api_key_env = p.api_key_env;
            api_key_value = getenv env_name;
          }))

abbrev pub with_choice : (String → String) → Choice → Resolved (Option ResolvedProvider)
with_choice getenv none = ok none
with_choice getenv (some (p, model)) = resolve_key getenv p model

abbrev pub or_single : List ProviderConfig → Choice → Choice
or_single providers (some c) = some c
or_single providers none = single (enabled_of providers)

abbrev pub then_single :
    (String → String) → List ProviderConfig → Resolved Choice → Resolved (Option ResolvedProvider)
then_single getenv providers (failed e) = failed e
then_single getenv providers (ok c) = with_choice getenv (or_single providers c)

abbrev pub then_tier : Resolved Choice → Resolved Choice → Resolved Choice
then_tier (failed e) by = failed e
then_tier (ok none) by = by
then_tier (ok (some c)) by = ok (some c)

-- `store` is `none` where there is no tier store, and `loader` where there is no loader.
unfoldable pub resolve_provider :
    (String → String)
    → String
    → List ProviderConfig
    → List RoleOverride
    → Option TierStore
    → Option RoleTierLoader
    → Resolved (Option ResolvedProvider)
unfolding by_override by_tier resolve_key
resolve_provider getenv role [] overrides store loader = ok none
resolve_provider getenv role (p ∷ ps) overrides store loader =
    let providers = p ∷ ps in
    let chosen =
      then_tier (by_override role providers overrides) (by_tier role providers store loader) in
    then_single getenv providers chosen

-- An override that cannot be read is none.
abbrev pub overrides_of : Option TierStore → List RoleOverride
overrides_of none = []
overrides_of (some s) = elim s.role_overrides [ some overrides ↦ overrides | none ↦ [] ]

-- Pipeline.ResolveProviderForRole: `db` is `none` where there is no database.
unfoldable pub resolve_provider_for_role :
    (String → String)
    → String
    → Option DbRead
    → Option TierStore
    → RoleTierLoader
    → Resolved (Option ResolvedProvider)
unfolding resolve_provider merge_providers
resolve_provider_for_role getenv role none store load = ok none
resolve_provider_for_role getenv role (some read) store load =
    resolve_provider getenv role (merge_providers (some read) []) (overrides_of store) store
      (some load)
