-- ===== src/Config/Tiered.antt =====
-- internal/config/store.go: which provider ResolveTier picks.
use mathlib.Core.List.{Memᴰ}
use mathlib.Core.Option
use mathlib.Core.Option.{some-injective}
use devteam.Prelude.{
  All, All-map, All-mem, Bool, Bool-cases, List, Option, Option-cases, String, [], any, ap, arith,
  false, find, inl, inr, none, refl, some, string_eq, sym, true, ◌≡◌, ◌∙◌, ◌≢◌, ◌⊎◌, ◌∷◌, ◌==◌,
  if◌then◌else◌, nat_eq, text_eq,
}
use devteam.Db.Order.{IsSorted, order_by, order_by-IsSorted, All-order_by, order_by-All}
use devteam.Config.Types.{ProviderConfig, TierModel}
use devteam.Config.Names.{name_le, name_le_total, name_le_trans}
use devteam.Config.Tiers.{
  TierStore, enabled_of, tier_model, is_entry, by_name, first_with, resolve_tier,
}

module _ (rows : List TierModel) (tier : String) where
  -- The provider has a model for the tier.
  abbrev pub Serves : ProviderConfig → Type 0
  Serves q = tier_model rows tier q.name ≢ none

  name_le_refl : (a : String) → name_le a a ≡ true
  name_le_refl a = elim (name_le_total a a) [ inl h ↦ h | inr h ↦ h ]

  first_with-first :
      (ps : List ProviderConfig) (p : ProviderConfig) (m : String)
      → IsSorted by_name ps
      → first_with rows tier ps ≡ some (p, m)
      → Memᴰ p ps
        × (tier_model rows tier p.name ≡ some m)
        × All (λ q. Serves q → name_le p.name q.name ≡ true) ps
  unfolding first_with
  first_with-first [] p m s e = cc
  first_with-first (q ∷ ps) p m s e = elim (Option-cases (tier_model rows tier q.name)) [
    | inr (model, h) ↦
        let same = some-injective _ _ (rw (first_with, h) at e) in
        let here : q ≡ p = ap (λ c. c.0) same in
        (
          Memᴰ.head (sym here),
          rw (← here) (h ∙ ap (λ c. some c.1) same),
          (
            (λ _. rw (← here) (name_le_refl q.name)),
            All-map (λ r. by_name q r ≡ true) (λ r. Serves r → name_le p.name r.name ≡ true) ps
                (λ r le _. rw (← here) le) s.0,
          ),
        )
    | inl h ↦
        let (m, served, least) = first_with-first ps p m s.1 (rw (first_with, h) at e) in
        (Memᴰ.tail m, served, ((λ serves. absurd (serves h)), least))
  ]

  first_with-none :
      (ps : List ProviderConfig)
      → first_with rows tier ps ≡ none
      → All (λ q. tier_model rows tier q.name ≡ none) ps
  unfolding first_with
  first_with-none [] e = tt
  first_with-none (q ∷ ps) e = elim (Option-cases (tier_model rows tier q.name)) [
    | inr (model, h) ↦ absurd (cc (rw (first_with, h) at e))
    | inl h ↦ (h, first_with-none ps (rw (first_with, h) at e))
  ]

All-kept :
    (P : ProviderConfig → Type 0) (b : Bool) (p : ProviderConfig) (ps : List ProviderConfig)
    → (b ≡ true → P p)
    → All P ps
    → All P (if b then p ∷ ps else ps)
All-kept P true p ps h hs = (h refl, hs)
All-kept P false p ps h hs = hs

pub All-enabled :
    (ps : List ProviderConfig) → All (λ p. Memᴰ p ps × (p.enabled ≡ true)) (enabled_of ps)
All-enabled [] = tt
All-enabled (p ∷ ps) =
    let Is : ProviderConfig → Type 0 = λ q. Memᴰ q (p ∷ ps) × (q.enabled ≡ true) in
    All-kept Is p.enabled p (enabled_of ps) (λ h. (Memᴰ.head refl, h))
      (All-map _ Is (enabled_of ps) (λ q h. (Memᴰ.tail h.0, h.1)) (All-enabled ps))

ordered_IsSorted : (ps : List ProviderConfig) → IsSorted by_name (order_by by_name ps)
ordered_IsSorted ps =
    order_by-IsSorted by_name (λ p q. name_le_total p.name q.name)
      (λ p q r. name_le_trans p.name q.name r.name) ps

module _ (rows : List TierModel) (tier : String) (providers : List ProviderConfig) where
  -- The provider is enabled and has the model for the tier, and no enabled provider that has one
  -- too comes before it by name.
  pub record IsFirst (p : ProviderConfig) (model : String) : Type 0 where
    pub is_there : Memᴰ p providers
    pub is_enabled : p.enabled ≡ true
    pub serves : tier_model rows tier p.name ≡ some model
    pub is_least :
        All (λ q. Serves rows tier q → name_le p.name q.name ≡ true) (enabled_of providers)

  abbrev pub Picks : Option (ProviderConfig × String) → Type 0
  Picks (some (p, model)) = IsFirst p model
  Picks none = All (λ q. tier_model rows tier q.name ≡ none) (enabled_of providers)

  first_with-Picks : Picks (first_with rows tier (order_by by_name (enabled_of providers)))
  first_with-Picks =
      let enabled = enabled_of providers in
      let sorted = order_by by_name enabled in
      elim (Option-cases (first_with rows tier sorted)) [
        | inl h ↦ rw h (order_by-All by_name _ enabled (first_with-none rows tier sorted h))
        | inr ((p, m), h) ↦
            let (m, serves, least) =
              first_with-first rows tier sorted p m (ordered_IsSorted enabled) h in
            let (there, is_on) =
              All-mem _ sorted (All-order_by by_name _ enabled (All-enabled providers)) m in
            rw h (record {
              is_there = there;
              is_enabled = is_on;
              serves = serves;
              is_least = order_by-All by_name _ enabled least;
            })
      ]

find-no_tier :
    (tier n : String) (rows : List TierModel)
    → any (λ m. m.tier == tier) rows ≡ false
    → find (is_entry tier n) rows ≡ none
find-no_tier tier n [] h = refl
find-no_tier tier n (m ∷ rows) h = ground (arith, find-no_tier tier n rows)

no_rows :
    (tier : String) (rows : List TierModel) (ps : List ProviderConfig)
    → any (λ m. m.tier == tier) rows ≡ false
    → All (λ q. tier_model rows tier q.name ≡ none) ps
unfolding tier_model
no_rows tier rows [] h = tt
no_rows tier rows (p ∷ ps) h =
    (ap (Option.map _) (find-no_tier tier p.name rows h), no_rows tier rows ps h)

-- What ResolveTier returns: a provider that is first, or nothing, because there is no tier, the
-- table cannot be read, or no enabled provider has a row.
abbrev pub IsTierChoice :
    TierStore → String → List ProviderConfig → Option (ProviderConfig × String) → Type 0
IsTierChoice store tier providers (some (p, model)) =
    (rows : List TierModel) × (store.tier_models ≡ some rows) × IsFirst rows tier providers p model
IsTierChoice store tier providers none =
    (tier ≡ "")
    ⊎ (store.tier_models ≡ none)
    ⊎ ((rows : List TierModel) × (store.tier_models ≡ some rows)
        × All (λ q. tier_model rows tier q.name ≡ none) (enabled_of providers))

-- ResolveTier picks the first enabled provider by name that has a model for the tier, with that
-- model; it picks none only where the tier is empty, the table cannot be read, or no enabled
-- provider has a model for the tier.
pub resolve_tier-IsTierChoice :
    (store : TierStore) (tier : String) (providers : List ProviderConfig)
    → IsTierChoice store tier providers (resolve_tier store tier providers)
unfolding resolve_tier
resolve_tier-IsTierChoice store tier providers = elim (Bool-cases (tier == "")) [
  | inl h ↦ rw h (inl ((string_eq.beq_iff tier "").0 h))
  | inr h ↦ elim (Option-cases store.tier_models) [
    | inl unread ↦ rw (h, unread) (inr (inl refl))
    | inr (rows, read) ↦ elim (Bool-cases (any (λ m. m.tier == tier) rows)) [
      | inr unknown ↦
          rw (h, read, unknown)
            (inr (inr (rows, refl, no_rows tier rows (enabled_of providers) unknown)))
      | inl known ↦
          rw (h, read, known)
            (picked (record store { tier_models = some rows }) rows tier providers refl)
    ]
  ]
]
  where
    picked :
        (store : TierStore) (rows : List TierModel) (tier : String)
        (providers : List ProviderConfig)
        → store.tier_models ≡ some rows
        → IsTierChoice store tier providers
            (first_with rows tier (order_by by_name (enabled_of providers)))
    picked store rows tier providers read =
        let c = first_with rows tier (order_by by_name (enabled_of providers)) in
        let picks = first_with-Picks rows tier providers in
        elim (Option-cases c) [
          | inl h ↦ rw h (inr (inr (rows, read, rw h at picks)))
          | inr ((p, m), h) ↦ rw h (rows, read, rw h at picks)
        ]
