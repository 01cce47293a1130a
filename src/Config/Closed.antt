-- ===== src/Config/Closed.antt =====
-- internal/config/store.go: the references between the tables hold.
use text.Mathlib.TextEquality.{eq_iff}
use devteam.Prelude.{
  All, All-map, Bool, Bool-cases, List, String, [], any, any-keep, arith, inl, inr, keep, not,
  string_eq, true, ◌≡◌, ◌∙◌, ◌&&◌, ◌||◌, ◌∷◌, ◌==◌, nat_eq, text_eq,
}
use devteam.Config.Types.{ProviderConfig}
use devteam.Config.Merge.{named}
use devteam.Config.Tables.{
  Tables, put, upsert_provider, delete_provider, upsert_tier_model, upsert_role_override,
}

pub data Op : Type 0 where
  do_upsert_provider : ProviderConfig → Op
  do_delete_provider : String → Op
  do_upsert_tier_model : String → String → String → Op
  do_upsert_role_override : String → String → String → Op

abbrev pub apply : Op → Tables → Tables
apply (do_upsert_provider p) t = (upsert_provider p t).0
apply (do_delete_provider name) t = (delete_provider name t).0
apply (do_upsert_tier_model tier provider model) t = (upsert_tier_model tier provider model t).0
apply (do_upsert_role_override role provider model) t =
    (upsert_role_override role provider model t).0

-- Before each call the database may stop to answer, or answer again.
abbrev pub execute : List (Bool × Op) → Tables → Tables
execute [] t = t
execute ((up, op) ∷ ops) t = execute ops (apply op (record t { up = up }))

-- Every tier and every override refers to a provider that is there.
abbrev pub Refers : List ProviderConfig → String → Type 0
Refers ps name = any (named name) ps ≡ true

pub record IsClosed (t : Tables) : Type 0 where
  pub tiers : All (λ m. Refers t.providers m.provider_name) t.tier_models
  pub overrides : All (λ o. Refers t.providers o.provider_name) t.role_overrides

module _ {A : Type 0} (P : A → Type 0) where
  All-put : (same : A → Bool) (a : A) (bs : List A) → P a → All P bs → All P (put same a bs)
  All-put same a [] h hs = (h, tt)
  All-put same a (b ∷ bs) h hs = elim (Bool-cases (same b)) [
    | inl e ↦ rw e (h, hs.1)
    | inr e ↦ rw e (hs.0, All-put same a bs h hs.1)
  ]

  -- What is kept passes the test.
  All-keep : (q : A → Bool) (bs : List A) → All P bs → All (λ b. P b × (q b ≡ true)) (keep q bs)
  All-keep q [] hs = tt
  All-keep q (b ∷ bs) hs = elim (Bool-cases (q b)) [
    | inl e ↦ rw e ((hs.0, e), All-keep q bs hs.1)
    | inr e ↦ rw e (All-keep q bs hs.1)
  ]

any-put :
    (n : String) (p : ProviderConfig) (ps : List ProviderConfig)
    → any (named n) ps ≡ true
    → any (named n) (put (named p.name) p ps) ≡ true
any-put n p [] h = cc h
any-put n p (q ∷ ps) h =
    ground (arith, h, eq_iff q.name p.name, eq_iff p.name n, eq_iff q.name n, any-put n p ps)

any-delete :
    (n name : String) (ps : List ProviderConfig)
    → any (named n) ps ≡ true
    → not (n == name) ≡ true
    → any (named n) (keep (λ p. not (named name p)) ps) ≡ true
any-delete n name ps h e =
    any-keep (named n) (λ p. not (named name p)) ps
      (λ p same. rw ((string_eq.beq_iff p.name n).0 same) e)
    ∙ h

upsert_provider-IsClosed :
    (p : ProviderConfig) (t : Tables) → IsClosed t → IsClosed (upsert_provider p t).0
unfolding upsert_provider
upsert_provider-IsClosed p t c = elim (Bool-cases t.up) [
  | inr down ↦ rw down (record { tiers = c.tiers; overrides = c.overrides })
  | inl up ↦ rw up (record {
    tiers = All-map _ _ t.tier_models (λ m h. any-put m.provider_name _ t.providers h) c.tiers;
    overrides =
        All-map _ _ t.role_overrides (λ o h. any-put o.provider_name _ t.providers h) c.overrides;
  })
]

delete_provider-IsClosed :
    (name : String) (t : Tables) → IsClosed t → IsClosed (delete_provider name t).0
unfolding delete_provider
delete_provider-IsClosed name t c = elim (Bool-cases t.up) [
  | inr down ↦ rw down (record { tiers = c.tiers; overrides = c.overrides })
  | inl up ↦ rw up (record {
    tiers =
        All-map _ _ _ (λ m h. any-delete m.provider_name name t.providers h.0 h.1)
          (All-keep _ _ t.tier_models c.tiers);
    overrides =
        All-map _ _ _ (λ o h. any-delete o.provider_name name t.providers h.0 h.1)
          (All-keep _ _ t.role_overrides c.overrides);
  })
]

upsert_tier_model-IsClosed :
    (tier provider model : String) (t : Tables)
    → IsClosed t
    → IsClosed (upsert_tier_model tier provider model t).0
unfolding upsert_tier_model
upsert_tier_model-IsClosed tier provider model t c =
    elim (Bool-cases (tier == "" || provider == "" || model == "")) [
      | inl empty ↦ rw empty c
      | inr filled ↦ elim (Bool-cases (t.up && any (named provider) t.providers)) [
        | inr absent ↦ rw (filled, absent) c
        | inl present ↦
            rw (filled, present)
              (record {
                tiers = All-put _ _ _ t.tier_models (ground (arith, present)) c.tiers;
                overrides = c.overrides;
              })
      ]
    ]

upsert_role_override-IsClosed :
    (role provider model : String) (t : Tables)
    → IsClosed t
    → IsClosed (upsert_role_override role provider model t).0
unfolding upsert_role_override
upsert_role_override-IsClosed role provider model t c = elim (Bool-cases (role == "")) [
  | inl empty ↦ rw empty c
  | inr filled ↦ elim (Bool-cases t.up) [
    | inr down ↦ rw (filled, down) (record { tiers = c.tiers; overrides = c.overrides })
    | inl up ↦ elim (Bool-cases (provider == "")) [
      | inl bare ↦
          rw (filled, up, bare)
            (record {
              tiers = c.tiers;
              overrides = All-map _ _ _ (λ o h. h.0) (All-keep _ _ t.role_overrides c.overrides);
            })
      | inr named_one ↦ elim (Bool-cases (any (named provider) t.providers)) [
        | inr absent ↦
            rw (filled, up, named_one, absent) (record { tiers = c.tiers; overrides = c.overrides })
        | inl present ↦
            rw (filled, up, named_one, present)
              (record {
                tiers = c.tiers;
                overrides = All-put _ _ _ t.role_overrides present c.overrides;
              })
      ]
    ]
  ]
]

apply-IsClosed : (op : Op) (t : Tables) → IsClosed t → IsClosed (apply op t)
apply-IsClosed (do_upsert_provider p) t c = upsert_provider-IsClosed p t c
apply-IsClosed (do_delete_provider name) t c = delete_provider-IsClosed name t c
apply-IsClosed (do_upsert_tier_model tier provider model) t c =
    upsert_tier_model-IsClosed tier provider model t c
apply-IsClosed (do_upsert_role_override role provider model) t c =
    upsert_role_override-IsClosed role provider model t c

pub execute-IsClosed : (ops : List (Bool × Op)) (t : Tables) → IsClosed t → IsClosed (execute ops t)
execute-IsClosed [] t c = c
execute-IsClosed ((up, op) ∷ ops) t c =
    execute-IsClosed ops (apply op (record t { up = up })) (
      apply-IsClosed op (record t { up = up })
        (record { tiers = c.tiers; overrides = c.overrides }))
