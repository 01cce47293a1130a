-- ===== src/Config/Merge.antt =====
-- internal/config/merge.go: the providers of the database laid over those of the YAML file.
use devteam.Prelude.{
  Bool, List, Option, String, [], any, elem, keep, none, not, some, ◌∷◌, ◌++◌, ◌==◌, if◌then◌else◌,
  nat_eq, string_eq, text_eq,
}
use mathlib.Core.List.{reverse}
use devteam.Db.Order.{insert}
use devteam.Config.Types.{ProviderConfig}
use devteam.Config.Names.{name_le}

-- ProviderStore.Providers: `none` where the read fails.
abbrev pub DbRead : Type 0
DbRead = Option (List ProviderConfig)

abbrev pub named : String → ProviderConfig → Bool
named n p = p.name == n

-- Only the first provider of a name is kept.
unfoldable pub dedup : List String → List ProviderConfig → List ProviderConfig
dedup seen [] = []
dedup seen (p ∷ ps) =
    let rest = dedup (p.name ∷ seen) ps in if elem p.name seen then dedup seen ps else p ∷ rest

-- The inner loop, on the part that is sorted with its last element first: a provider goes back past
-- those whose names are greater.
unfoldable pub sink : ProviderConfig → List ProviderConfig → List ProviderConfig
sink = insert (λ p q. name_le q.name p.name)

unfoldable pub sort_loop : List ProviderConfig → List ProviderConfig → List ProviderConfig
unfolding sink
sort_loop rev [] = reverse rev
sort_loop rev (p ∷ ps) = sort_loop (sink p rev) ps

unfoldable pub dedup_and_sort : List ProviderConfig → List ProviderConfig
unfolding dedup sort_loop
dedup_and_sort ps = sort_loop [] (dedup [] ps)

-- Those of the YAML file whose names the database does not have.
abbrev pub unmanaged : List ProviderConfig → List ProviderConfig → List ProviderConfig
unmanaged db yaml = keep (λ y. not (any (named y.name) db)) yaml

-- `store` is `none` where there is no database.
unfoldable pub merge_providers : Option DbRead → List ProviderConfig → List ProviderConfig
unfolding dedup_and_sort
merge_providers none yaml = dedup_and_sort yaml
merge_providers (some none) yaml = dedup_and_sort yaml
merge_providers (some (some db)) yaml = dedup_and_sort (db ++ unmanaged db yaml)
