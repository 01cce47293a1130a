-- ===== src/Config/Known.antt =====
-- internal/pipeline/pipeline.go, with internal/config/store.go: no role is resolved to a provider
-- that is not there.
use mathlib.Core.Path.{subst}
use devteam.Prelude.{
  All, All-mem, Bool, Bool-cases, List, Option, String, [], any, ap, arith, false, find, find-mem,
  find-none-any, inl, inr, map, none, refl, some, sym, true, ◌≡◌, ◌∙◌, ◌≢◌, ◌||◌, ◌∷◌, ◌==◌, nat_eq,
  string_eq, text_eq,
}
use devteam.Db.Order.{order_by, order_by-All}
use devteam.Config.Types.{ProviderConfig, ProviderModel, RoleOverride}
use devteam.Config.Merge.{named, merge_providers}
use devteam.Config.Merged.{or_else, merge_providers-IsUnion}
use devteam.Config.Resolve.{
  failed, unknown_provider, RoleTierLoader, override_of, overrides_of, find_provider,
  resolve_provider_for_role,
}
use devteam.Config.Resolved.{Fails, Explains, resolve_provider-Explains}
use devteam.Config.Tables.{Tables, attach, read_providers, tier_store}
use devteam.Config.Closed.{Op, execute, IsClosed, execute-IsClosed}

-- A provider that is in the table is read, in any order of the database.
any-order_by :
    (le : ProviderConfig → ProviderConfig → Bool) (n : String) (ps : List ProviderConfig)
    → any (named n) (order_by le ps) ≡ false
    → any (named n) ps ≡ false
any-order_by le n ps h = any-all ps (order_by-All le _ ps (all-any (order_by le ps) h))
  where
    all-any :
        (qs : List ProviderConfig) → any (named n) qs ≡ false → All (λ q. named n q ≡ false) qs
    all-any [] h = tt
    all-any (q ∷ qs) h = (ground arith, all-any qs (ground arith))

    any-all :
        (qs : List ProviderConfig) → All (λ q. named n q ≡ false) qs → any (named n) qs ≡ false
    any-all [] h = refl
    any-all (q ∷ qs) h = rw h.0 (any-all qs h.1)

module _ (getenv : String → String) (le : String → String → Bool) where
  any-attach :
      (n : String) (rows : List ProviderModel) (ps : List ProviderConfig)
      → any (named n) (map (attach getenv le rows) ps) ≡ any (named n) ps
  any-attach n rows [] = refl
  any-attach n rows (p ∷ ps) = ap (λ b. named n p || b) (any-attach n rows ps)

or_else-none : (o : Option ProviderConfig) → or_else o none ≡ none → o ≡ none
or_else-none none h = refl
or_else-none (some p) h = cc h

find-merged :
    (n : String) (db : List ProviderConfig)
    → find (named n) (merge_providers (some (some db)) []) ≡ none
    → any (named n) db ≡ false
find-merged n db e =
    let union = ((merge_providers-IsUnion (some (some db)) []).1 n).1 in
    find-none-any (named n) db (or_else-none (find (named n) db) (sym union ∙ e))

find_provider-read :
    (getenv : String → String) (le : String → String → Bool) (n : String) (t : Tables)
    → t.up ≡ true
    → find_provider (merge_providers (some (read_providers getenv le t)) []) n ≡ none
    → any (named n) t.providers ≡ false
unfolding find_provider read_providers
find_provider-read getenv le n t up e =
    let rows = order_by (λ p q. le p.name q.name) t.providers in
    let db = map (attach getenv le t.provider_models) rows in
    let read : read_providers getenv le t ≡ some db = rw up refl in
    any-order_by (λ p q. le p.name q.name) n t.providers
      (sym (any-attach getenv le n t.provider_models rows) ∙ find-merged n db (rw read at e))

-- An override that is read names a provider that is found.
IsClosed-refutes :
    (getenv : String → String) (le : String → String → Bool) (t : Tables) (role n : String)
    (ro : RoleOverride)
    → IsClosed t
    → override_of role (overrides_of (some (tier_store t))) ≡ some ro
    → ro.provider_name ≡ n
    → find_provider (merge_providers (some (read_providers getenv le t)) []) n ≡ none
    → ⊥
unfolding tier_store
IsClosed-refutes getenv le t role n ro c found same missing = elim (Bool-cases t.up) [
  | inr down ↦ absurd (cc (rw down at found))
  | inl up ↦
      let there : override_of role t.role_overrides ≡ some ro = rw up at found in
      let (m, _) = find-mem (λ o. o.role == role) t.role_overrides ro there in
      let known : any (named ro.provider_name) t.providers ≡ true =
        All-mem (λ o. any (named o.provider_name) t.providers ≡ true) t.role_overrides c.overrides
          m in
      let unknown = find_provider-read getenv le n t up missing in
      absurd (cc (known, same, unknown))
]

IsClosed-known :
    (getenv : String → String) (le : String → String → Bool) (t : Tables) (load : RoleTierLoader)
    (role n : String)
    → IsClosed t
    → resolve_provider_for_role getenv role
        (some (read_providers getenv le t))
        (some (tier_store t))
        load
      ≢ failed (unknown_provider n)
unfolding resolve_provider_for_role
IsClosed-known getenv le t load role n c e =
    let merged = merge_providers (some (read_providers getenv le t)) [] in
    let overrides = overrides_of (some (tier_store t)) in
    let ((ro, found, same, _), missing) : Fails getenv role merged overrides (some (tier_store t))
        (some load) (unknown_provider n) =
      subst (λ r. Explains getenv role merged overrides (some (tier_store t)) (some load) r) e
        (resolve_provider-Explains getenv role merged overrides (some (tier_store t))
          (some load)) in
    IsClosed-refutes getenv le t role n ro c found same missing

-- Whatever is done with providers, tiers and overrides, the database failing at any time: if every
-- tier and every override refers to a provider that is there at first, so it is in the end, and
-- then the resolution for a role never fails with an unknown provider.
pub execute-IsKnown :
    (getenv : String → String) (le : String → String → Bool) (ops : List (Bool × Op)) (t : Tables)
    (load : RoleTierLoader) (role n : String)
    → IsClosed t
    → let s = execute ops t in
      IsClosed s
      × (resolve_provider_for_role getenv role
            (some (read_providers getenv le s))
            (some (tier_store s))
            load
          ≢ failed (unknown_provider n))
execute-IsKnown getenv le ops t load role n c =
    let closed = execute-IsClosed ops t c in
    (closed, IsClosed-known getenv le (execute ops t) load role n closed)
