-- ===== src/Config/Tables.antt =====
-- internal/config/store.go: ProviderStore and TierStore over their four tables, whose keys and
-- references are those of internal/db/migration_020.go.
use mathlib.Core.List.{map}
use devteam.Prelude.{
  Bool, List, String, [], any, false, keep, none, not, some, true, ◌&&◌, ◌||◌, ◌∷◌, ◌==◌,
  if◌then◌else◌, nat_eq, string_eq, text_eq,
}
use devteam.Db.Order.{order_by}
use devteam.Config.Types.{ProviderConfig, ProviderModel, TierModel, RoleOverride, derive_key_state}
use devteam.Config.Merge.{DbRead, named}
use devteam.Config.Tiers.{TierStore}

-- A row of providers has no models and no state of its key. `up` is whether the database answers.
pub record Tables : Type 0 where
  pub up : Bool
  pub providers : List ProviderConfig
  pub provider_models : List ProviderModel
  pub tier_models : List TierModel
  pub role_overrides : List RoleOverride

-- INSERT ... ON CONFLICT DO UPDATE, where `same` finds the row of the key.
abbrev pub put : {A : Type 0} → (A → Bool) → A → List A → List A
put same a [] = a ∷ []
put same a (b ∷ bs) = if same b then a ∷ bs else b ∷ put same a bs

abbrev is_model : String → String → ProviderModel → Bool
is_model provider id m = m.provider_name == provider && m.model_id == id

abbrev insert_models : String → List ProviderModel → List ProviderModel → List ProviderModel
insert_models name [] rows = rows
insert_models name (m ∷ ms) rows =
    insert_models name ms (put (is_model name m.model_id) (record m { provider_name = name }) rows)

-- The models are replaced; all of it is one transaction.
unfoldable pub upsert_provider : ProviderConfig → Tables → Tables × Bool
upsert_provider p t = if not t.up then (t, false) else (
  record t {
    providers = put (named p.name) (record p { models = []; key_state = "" }) t.providers;
    provider_models =
        insert_models p.name p.models
          (keep (λ m. not (m.provider_name == p.name)) t.provider_models);
  },
  true,
)

-- The rows that refer to the provider are deleted with it.
unfoldable pub delete_provider : String → Tables → Tables × Bool
delete_provider name t = if not t.up then (t, false) else (
  record t {
    providers = keep (λ p. not (named name p)) t.providers;
    provider_models = keep (λ m. not (m.provider_name == name)) t.provider_models;
    tier_models = keep (λ m. not (m.provider_name == name)) t.tier_models;
    role_overrides = keep (λ o. not (o.provider_name == name)) t.role_overrides;
  },
  true,
)

abbrev is_tier_row : String → String → TierModel → Bool
is_tier_row tier provider m = m.tier == tier && m.provider_name == provider

-- A row for a provider that is not there is refused by the database.
unfoldable pub upsert_tier_model : String → String → String → Tables → Tables × Bool
upsert_tier_model tier provider model t =
    if tier == "" || provider == "" || model == ""
    then (t, false)
    else if not (t.up && any (named provider) t.providers)
    then (t, false)
    else (
      record t {
        tier_models =
            put (is_tier_row tier provider)
              (record { tier = tier; provider_name = provider; model_id = model }) t.tier_models;
      },
      true,
    )

-- No provider takes the override away.
unfoldable pub upsert_role_override : String → String → String → Tables → Tables × Bool
upsert_role_override role provider model t =
    if role == ""
    then (t, false)
    else if not t.up
    then (t, false)
    else if provider == ""
    then (record t { role_overrides = keep (λ o. not (o.role == role)) t.role_overrides }, true)
    else if not (any (named provider) t.providers)
    then (t, false)
    else (
      record t {
        role_overrides =
            put (λ o. o.role == role)
              (record { role = role; provider_name = provider; model_id = model }) t.role_overrides;
      },
      true,
    )

-- Providers, with `le` for the order of texts in the database.
module _ (getenv : String → String) (le : String → String → Bool) where
  abbrev pub attach : List ProviderModel → ProviderConfig → ProviderConfig
  attach rows p = record p {
    models =
        order_by (λ m n. le m.model_id n.model_id) (keep (λ m. m.provider_name == p.name) rows);
    key_state = derive_key_state getenv p.api_key_env;
  }

  unfoldable pub read_providers : Tables → DbRead
  read_providers t =
      if not t.up
      then none
      else some (map (attach t.provider_models) (order_by (λ p q. le p.name q.name) t.providers))

unfoldable pub tier_store : Tables → TierStore
tier_store t = record {
  tier_models = if t.up then some t.tier_models else none;
  role_overrides = if t.up then some t.role_overrides else none;
}
