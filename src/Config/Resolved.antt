-- ===== src/Config/Resolved.antt =====
-- internal/config/resolve.go: what ResolveProvider returns, on every branch.
use mathlib.Core.Option.{some-injective}
use devteam.Prelude.{
  Bool-cases, List, Option, Option-cases, String, [], ap, arith, find, inl, inr, length, none, refl,
  some, string_eq, sym, true, unlike, ◌≡◌, ◌∙◌, ◌≢◌, ◌⊎◌, ◌∷◌, ◌==◌, nat_eq, text_eq,
}
use devteam.Config.Types.{ProviderConfig, RoleOverride, TierModel, ResolvedProvider, strip_dollar}
use devteam.Config.Merge.{named}
use devteam.Config.Tiers.{TierStore, enabled_of, resolve_tier}
use devteam.Config.Tiered.{IsFirst, IsTierChoice, resolve_tier-IsTierChoice}
use devteam.Config.Resolve.{
  ResolveError, unknown_provider, loading_tier, key_not_set, Resolved, ok, failed, RoleTierLoader,
  Choice, find_provider, model_or_default, override_of, by_override, tier_choice, by_tier, single,
  resolve_key, with_choice, then_single, then_tier, resolve_provider,
}

module _ (getenv : String → String) (role : String) (providers : List ProviderConfig)
    (overrides : List RoleOverride) (store : Option TierStore)
    (loader : Option RoleTierLoader) where
  -- The override of the role names a provider.
  abbrev pub Names : String → Type 0
  Names n =
      (ro : RoleOverride) × (override_of role overrides ≡ some ro)
      × (ro.provider_name ≡ n)
      × (n ≢ "")

  abbrev pub Unnamed : Type 0
  Unnamed = (n : String) → Names n → ⊥

  -- The first provider of the name that the override has, with its model.
  abbrev pub FromOverride : ProviderConfig → String → Type 0
  FromOverride p model =
      (ro : RoleOverride) × (override_of role overrides ≡ some ro)
      × (ro.provider_name ≢ "")
      × (find_provider providers ro.provider_name ≡ some p)
      × (model ≡ model_or_default p ro.model_id)

  -- The first enabled provider that has a model for the tier of the role, with that model.
  abbrev pub FromTier : ProviderConfig → String → Type 0
  FromTier p model =
      (load : RoleTierLoader) × (tier : String) × (s : TierStore) × (rows : List TierModel)
      × (loader ≡ some load)
      × (load role ≡ some tier)
      × (store ≡ some s)
      × (s.tier_models ≡ some rows)
      × ((served : String) × IsFirst rows tier providers p served
          × (model ≡ model_or_default p served))

  -- The tier of the role gives no provider: there is no loader, or the role is loaded and has no
  -- tier, or there is no store, or its table cannot be read, or no enabled provider has a model for
  -- the tier.
  abbrev pub NoTier : Type 0
  NoTier =
      (loader ≡ none)
      ⊎ ((load : RoleTierLoader) × (tier : String) × (loader ≡ some load)
          × (load role ≡ some tier)
          × ((tier ≡ "")
              ⊎ (store ≡ none)
              ⊎ ((s : TierStore) × (store ≡ some s) × IsTierChoice s tier providers none)))

  -- The one enabled provider, where the tier gives none.
  abbrev pub FromSingle : ProviderConfig → String → Type 0
  FromSingle p model = NoTier × (enabled_of providers ≡ p ∷ []) × (model ≡ p.default_model_id)

  abbrev pub Source : ProviderConfig → String → Type 0
  Source p model = FromOverride p model ⊎ Unnamed × (FromTier p model ⊎ FromSingle p model)

  abbrev pub Fails : ResolveError → Type 0
  Fails (unknown_provider n) = Names n × (find_provider providers n ≡ none)
  Fails loading_tier =
      Unnamed × ((load : RoleTierLoader) × (loader ≡ some load) × (load role ≡ none))
  Fails (key_not_set n) =
      (p : ProviderConfig) × (model : String) × Source p model
      × (p.name ≡ n)
      × (p.api_key_env ≢ "")
      × (getenv (strip_dollar p.api_key_env) ≡ "")

  -- The value of the key is that of its variable, and is there if there is a variable.
  abbrev pub HasKey : ResolvedProvider → Type 0
  HasKey rp =
      (rp.api_key_env ≡ "") × (rp.api_key_value ≡ "")
      ⊎ (rp.api_key_env ≢ "")
        × (rp.api_key_value ≡ getenv (strip_dollar rp.api_key_env))
        × (rp.api_key_value ≢ "")

  abbrev pub IsOf : ProviderConfig → ResolvedProvider → Type 0
  IsOf p rp = (rp.base_url ≡ p.base_url) × (rp.api_key_env ≡ p.api_key_env)

  abbrev pub Explains : Resolved (Option ResolvedProvider) → Type 0
  Explains (failed e) = Fails e
  Explains (ok none) = (providers ≡ []) ⊎ Unnamed × NoTier × (length (enabled_of providers) ≢ 1)
  Explains (ok (some rp)) = HasKey rp × ((p : ProviderConfig) × Source p rp.model × IsOf p rp)

  -- What holds of a step that chooses, where `Silent` is what makes it choose none.
  abbrev Chooses : Type 0 → Resolved Choice → Type 0
  Chooses Silent (failed e) = Fails e
  Chooses Silent (ok none) = Silent
  Chooses Silent (ok (some (p, model))) = Source p model

  unnamed :
      (ro : RoleOverride)
      → override_of role overrides ≡ some ro
      → (ro.provider_name == "") ≡ true
      → Unnamed
  unnamed ro h empty n (other, e, same, there) =
      let one : ro ≡ other = some-injective _ _ (sym h ∙ e) in
      there (
        sym same
        ∙ ap (λ r. r.provider_name) (sym one)
        ∙ (string_eq.beq_iff ro.provider_name "").0 empty)

  Chooses-by_override : Chooses Unnamed (by_override role providers overrides)
  unfolding by_override find_provider
  Chooses-by_override = elim (Option-cases (override_of role overrides)) [
    | inl h ↦ rw (Chooses, h) (λ n (ro, e, _, _). cc e)
    | inr (ro, h) ↦ elim (Bool-cases (ro.provider_name == "")) [
      | inl empty ↦ rw (Chooses, h, empty) (unnamed ro h empty)
      | inr filled ↦ elim (Option-cases (find (named ro.provider_name) providers)) [
        | inl unknown ↦
            rw (Chooses, h, filled, unknown)
              ((ro, h, refl, unlike ro.provider_name "" filled), unknown)
        | inr (p, found) ↦
            rw (Chooses, h, filled, found)
              (inl (ro, h, unlike ro.provider_name "" filled, found, refl))
      ]
    ]
  ]

  Chooses-tier_choice :
      Unnamed
      → (load : RoleTierLoader) (tier : String) → loader ≡ some load
      → load role ≡ some tier
      → Chooses (Unnamed × NoTier) (ok (tier_choice providers store tier))
  Chooses-tier_choice unnamed load tier loaded e = elim (Option-cases store) [
    | inl h ↦ rw (Chooses, h) (unnamed, inr (load, tier, loaded, e, inr (inl h)))
    | inr (s, h) ↦ elim (Bool-cases (tier == "")) [
      | inl empty ↦
          rw (Chooses, h, empty)
            (unnamed, inr (load, tier, loaded, e, inl ((string_eq.beq_iff tier "").0 empty)))
      | inr filled ↦ elim (Option-cases (resolve_tier s tier providers)) [
        | inl nothing ↦
            rw (Chooses, h, filled, nothing)
              (
                unnamed,
                inr (
                  load,
                  tier,
                  loaded,
                  e,
                  inr (inr (s, h, rw nothing at (resolve_tier-IsTierChoice s tier providers))),
                ),
              )
        | inr ((p, m), picked) ↦
            let (rows, read, is_first) =
              rw picked at (resolve_tier-IsTierChoice s tier providers) in
            rw (Chooses, h, filled, picked)
              (inr (unnamed, inl (load, tier, s, rows, loaded, e, h, read, (m, is_first, refl))))
      ]
    ]
  ]

  Chooses-by_tier : Unnamed → Chooses (Unnamed × NoTier) (by_tier role providers store loader)
  unfolding by_tier
  Chooses-by_tier unnamed = elim (Option-cases loader) [
    | inl h ↦ rw (Chooses, h) (unnamed, inl h)
    | inr (load, h) ↦ elim (Option-cases (load role)) [
      | inl e ↦ rw (Chooses, h, e) (unnamed, (load, h, e))
      | inr (tier, e) ↦ rw (Chooses, h, e) (Chooses-tier_choice unnamed load tier h e)
    ]
  ]

  then_tier-Chooses :
      (c d : Resolved Choice)
      → Chooses Unnamed c
      → (Unnamed → Chooses (Unnamed × NoTier) d)
      → Chooses (Unnamed × NoTier) (then_tier c d)
  then_tier-Chooses (failed e) d h k = h
  then_tier-Chooses (ok none) d h k = k h
  then_tier-Chooses (ok (some (p, m))) d h k = h

  resolve_key-Explains :
      (p : ProviderConfig) (model : String) → Source p model → Explains (resolve_key getenv p model)
  unfolding resolve_key
  resolve_key-Explains p model source = elim (Bool-cases (p.api_key_env == "")) [
    | inl none_there ↦
        rw (Explains, none_there)
          (inl ((string_eq.beq_iff p.api_key_env "").0 none_there, refl), (p, source, (refl, refl)))
    | inr there ↦
        let is_there : p.api_key_env ≢ "" = unlike p.api_key_env "" there in
        let val = getenv (strip_dollar p.api_key_env) in
        elim (Bool-cases (val == "")) [
          | inl unset ↦
              rw (Explains, there, unset)
                (p, model, source, refl, is_there, (string_eq.beq_iff val "").0 unset)
          | inr set ↦
              rw (Explains, there, set)
                (inr (is_there, refl, unlike val "" set), (p, source, (refl, refl)))
        ]
  ]

  single-Explains :
      Unnamed × NoTier
      → (es : List ProviderConfig) → enabled_of providers ≡ es
      → Explains (with_choice getenv (single es))
  single-Explains (unnamed, silent) [] e = inr (unnamed, silent, rw e (omega arith))
  single-Explains (unnamed, silent) (p ∷ []) e =
      resolve_key-Explains p p.default_model_id (inr (unnamed, inr (silent, e, refl)))
  single-Explains (unnamed, silent) (p ∷ q ∷ ps) e = inr (unnamed, silent, rw e (omega arith))

  then_single-Explains :
      (c : Resolved Choice)
      → Chooses (Unnamed × NoTier) c
      → Explains (then_single getenv providers c)
  then_single-Explains (failed e) h = h
  then_single-Explains (ok none) h = single-Explains h (enabled_of providers) refl
  then_single-Explains (ok (some (p, m))) h = resolve_key-Explains p m h

pub resolve_provider-Explains :
    (getenv : String → String) (role : String) (providers : List ProviderConfig)
    (overrides : List RoleOverride) (store : Option TierStore) (loader : Option RoleTierLoader)
    → Explains getenv role providers overrides store loader
        (resolve_provider getenv role providers overrides store loader)
unfolding resolve_provider
resolve_provider-Explains getenv role [] overrides store loader = inl refl
resolve_provider-Explains getenv role (p ∷ ps) overrides store loader =
    let providers = p ∷ ps in
    then_single-Explains getenv role providers overrides store loader
      (then_tier (by_override role providers overrides) (by_tier role providers store loader))
      (then_tier-Chooses getenv role providers overrides store loader
        (by_override role providers overrides) (by_tier role providers store loader)
        (Chooses-by_override getenv role providers overrides store loader)
        (Chooses-by_tier getenv role providers overrides store loader))
