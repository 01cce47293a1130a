-- ===== src/Config/Merged.antt =====
-- internal/config/merge.go: the merged list is the union of two maps, and sorted.
use devteam.Prelude.{
  Bool-cases, List, Option, Option-cases, String, [], any, ap, find, find-keep, find-none-any, inl,
  inr, keep, length, none, not, refl, some, string_eq, ◌≤◌, ◌≡◌, ◌∙◌, ◌∷◌, ◌++◌, ◌==◌, nat_eq,
  text_eq,
}
use devteam.Config.Types.{ProviderConfig}
use devteam.Config.Merge.{DbRead, named, dedup, dedup_and_sort, unmanaged, merge_providers}
use devteam.Config.Tiers.{TierStore}
use devteam.Config.Resolve.{ok, RoleTierLoader, resolve_provider_for_role}
use devteam.Config.Sorted.{
  length-first, keep-dedup_and_sort, find-dedup_and_sort, Rising, Rising-sort_loop,
}

-- What is sorted.
abbrev all_of : Option DbRead → List ProviderConfig → List ProviderConfig
all_of (some (some db)) yaml = db ++ unmanaged db yaml
all_of (some none) yaml = yaml
all_of none yaml = yaml

merge_providers-all_of :
    (store : Option DbRead) (yaml : List ProviderConfig)
    → merge_providers store yaml ≡ dedup_and_sort (all_of store yaml)
unfolding merge_providers
merge_providers-all_of none yaml = refl
merge_providers-all_of (some none) yaml = refl
merge_providers-all_of (some (some db)) yaml = refl

abbrev pub db_of : Option DbRead → List ProviderConfig
db_of (some (some db)) = db
db_of (some none) = []
db_of none = []

abbrev pub or_else : Option ProviderConfig → Option ProviderConfig → Option ProviderConfig
or_else (some p) q = some p
or_else none q = q

find-append :
    (n : String) (ps qs : List ProviderConfig)
    → find (named n) (ps ++ qs) ≡ or_else (find (named n) ps) (find (named n) qs)
find-append n [] qs = refl
find-append n (p ∷ ps) qs = elim (Bool-cases (p.name == n)) [
  | inl h ↦ rw h refl
  | inr h ↦ rw h (find-append n ps qs)
]

find-unmanaged :
    (n : String) (db yaml : List ProviderConfig)
    → or_else (find (named n) db) (find (named n) (unmanaged db yaml))
      ≡ or_else (find (named n) db) (find (named n) yaml)
find-unmanaged n db yaml = elim (Option-cases (find (named n) db)) [
  | inr (p, h) ↦ rw h refl
  | inl h ↦ rw h (
      find-keep (named n) (λ y. not (any (named y.name) db)) yaml
        (λ y e. rw ((string_eq.beq_iff y.name n).0 e) (ap not (find-none-any (named n) db h))))
]

find-all_of :
    (n : String) (store : Option DbRead) (yaml : List ProviderConfig)
    → find (named n) (all_of store yaml)
      ≡ or_else (find (named n) (db_of store)) (find (named n) yaml)
find-all_of n none yaml = refl
find-all_of n (some none) yaml = refl
find-all_of n (some (some db)) yaml =
    find-append n db (unmanaged db yaml) ∙ find-unmanaged n db yaml

-- The merged list is sorted by name and has no name twice, and what it has under a name is what the
-- database has under it, and only if that has nothing, or cannot be read, or is not there, what the
-- YAML file has under it first.
pub merge_providers-IsUnion :
    (store : Option DbRead) (yaml : List ProviderConfig)
    → Rising (merge_providers store yaml)
      × ((n : String)
          → (length (keep (named n) (merge_providers store yaml)) ≤ 1)
            × (find (named n) (merge_providers store yaml)
                ≡ or_else (find (named n) (db_of store)) (find (named n) yaml)))
unfolding dedup_and_sort
merge_providers-IsUnion store yaml =
    let all = all_of store yaml in
    rw (merge_providers-all_of store yaml) (
      Rising-sort_loop [] (dedup [] all) tt,
      λ n. (
        rw (keep-dedup_and_sort n all) (length-first (keep (named n) all)),
        find-dedup_and_sort n all ∙ find-all_of n store yaml,
      ),
    )

-- Without the database a role gets the default of opencode, and no error, whatever is wrong with
-- the database.
resolve_provider_for_role-unread :
    (getenv : String → String) (role : String) (store : Option TierStore) (load : RoleTierLoader)
    → resolve_provider_for_role getenv role (some none) store load ≡ ok none
unfolding resolve_provider_for_role
resolve_provider_for_role-unread getenv role store load = refl
