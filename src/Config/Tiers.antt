-- ===== src/Config/Tiers.antt =====
-- internal/config/store.go: TierStore, as far as a provider is resolved with it.
use mathlib.Core.Option
use devteam.Prelude.{
  Bool, List, Option, String, [], any, find, keep, none, not, some, ◌&&◌, ◌∷◌, ◌==◌, if◌then◌else◌,
  nat_eq, string_eq, text_eq,
}
use devteam.Db.Order.{order_by}
use devteam.Config.Types.{ProviderConfig, TierModel, RoleOverride}
use devteam.Config.Names.{name_le}

-- What the tables hold; `none` where the read fails.
pub record TierStore : Type 0 where
  pub tier_models : Option (List TierModel)
  pub role_overrides : Option (List RoleOverride)

abbrev pub is_entry : String → String → TierModel → Bool
is_entry tier provider m = m.tier == tier && m.provider_name == provider

-- A tier and a provider have one row at most.
unfoldable pub tier_model : List TierModel → String → String → Option String
tier_model rows tier provider = Option.map (λ m. m.model_id) (find (is_entry tier provider) rows)

abbrev pub by_name : ProviderConfig → ProviderConfig → Bool
by_name p q = name_le p.name q.name

abbrev pub enabled_of : List ProviderConfig → List ProviderConfig
enabled_of ps = keep (λ p. p.enabled) ps

-- The first provider that has a row for the tier.
unfoldable pub first_with :
    List TierModel → String → List ProviderConfig → Option (ProviderConfig × String)
unfolding tier_model
first_with rows tier [] = none
first_with rows tier (p ∷ ps) = elim (tier_model rows tier p.name) [
  | some model ↦ some (p, model)
  | none ↦ first_with rows tier ps
]

unfoldable pub resolve_tier :
    TierStore → String → List ProviderConfig → Option (ProviderConfig × String)
unfolding first_with
resolve_tier store tier providers = if tier == "" then none else elim store.tier_models [
  | none ↦ none
  | some rows ↦
      if not (any (λ m. m.tier == tier) rows)
      then none
      else first_with rows tier (order_by by_name (enabled_of providers))
]
