-- ===== src/Stage/Scope/Detect.antt =====
-- internal/stage/scope.go: DetectScope. The intent is a list of code points; `lower` and `is_space`
-- stand for Go's unicode.ToLower and unicode.IsSpace.
use devteam.Prelude.{
  All, Bool, List, Option, String, Text, [], codes, contains, false, leb, map, none, not, some,
  true, ℕ, ◌+◌, ◌≤◌, ◌<◌, ◌≡◌, ◌⊎◌, ◌&&◌, ◌||◌, ◌∷◌, ◌++◌, ◌==◌, if◌then◌else◌, nat_eq, string_eq,
  text_eq,
}
use mathlib.Core.List.{Memᴰ}
use devteam.Stage.Scope.{
  scope_feature, scope_mvp, scope_poc, scope_bugfix, scope_refactor, scope_infra,
  scope_security_patch, scope_workshop,
}

abbrev keywords : List String → List Text
keywords ks = map codes ks

abbrev pub keyword_scopes : List (List Text × String)
keyword_scopes =
    (
      keywords ("cve" ∷ "vulnerability" ∷ "security patch" ∷ "security-patch" ∷ []),
      scope_security_patch,
    )
    ∷ (keywords ("proof of concept" ∷ "prototype" ∷ "poc" ∷ "spike" ∷ []), scope_poc)
    ∷ (keywords ("mvp" ∷ "minimum viable" ∷ []), scope_mvp)
    ∷ (keywords ("workshop" ∷ "lab" ∷ "training" ∷ []), scope_workshop)
    ∷ (keywords ("infrastructure" ∷ "deploy" ∷ "infra" ∷ []), scope_infra)
    ∷ (keywords ("refactor" ∷ "clean up" ∷ "simplify" ∷ "restructure" ∷ []), scope_refactor)
    ∷ (keywords ("fix" ∷ "bug" ∷ "broken" ∷ "error" ∷ "crash" ∷ "panic" ∷ []), scope_bugfix)
    ∷ []

-- The scopes whose keywords override the rule on long intents.
abbrev pub is_specific : String → Bool
is_specific sc =
    sc == scope_security_patch || sc == scope_poc || sc == scope_mvp || sc == scope_workshop

-- What a keyword of scope `sc` that was found makes the function return.
verdict : ℕ → String → String × Bool
verdict word_count sc =
    if leb 5 word_count
    then (if is_specific sc then (sc, true) else (scope_feature, false))
    else (sc, true)

-- The inner loop; `none` where it runs to its end.
scan_keywords : Text → ℕ → String → List Text → Option (String × Bool)
scan_keywords low word_count sc [] = none
scan_keywords low word_count sc (kw ∷ kws) =
    if contains low kw then some (verdict word_count sc) else scan_keywords low word_count sc kws

-- The outer loop.
scan_scopes : Text → ℕ → List (List Text × String) → String × Bool
scan_scopes low word_count [] = (scope_feature, false)
scan_scopes low word_count ((kws, sc) ∷ rest) = elim (scan_keywords low word_count sc kws) [
  | some r ↦ r
  | none ↦ scan_scopes low word_count rest
]

module _ (lower : ℕ → ℕ) (is_space : ℕ → Bool) where
  -- len(strings.Fields(s)); the flag says that the character before belongs to a field.
  fields_from : Bool → Text → ℕ
  fields_from inside [] = 0
  fields_from inside (c ∷ s) =
      (if not (is_space c) && not inside then 1 else 0) + fields_from (not (is_space c)) s

  unfoldable pub word_count : Text → ℕ
  unfolding fields_from
  word_count s = fields_from false s

  unfoldable pub detect_scope : Text → String × Bool
  unfolding scan_scopes scan_keywords verdict
  detect_scope intent = scan_scopes (map lower intent) (word_count intent) keyword_scopes

-- No keyword of a scope stands in the text.
abbrev pub IsSilent : Text → List Text → Type 0
IsSilent low kws = All (λ kw. contains low kw ≡ false) kws

-- The scope is that of the first entry of the table of which a keyword stands in the text.
pub record IsFirst (low : Text) (table : List (List Text × String)) (sc : String) : Type 0 where
  pub before : List (List Text × String)
  pub behind : List (List Text × String)
  pub words : List Text
  pub word : Text
  pub stands : table ≡ before ++ (words, sc) ∷ behind
  pub earlier : All (λ row. IsSilent low row.0) before
  pub among : Memᴰ word words
  pub found : contains low word ≡ true

-- What DetectScope answers to an intent: the first scope that is mentioned, with confidence, if the
-- intent is short or the scope is one of the four specific ones; else, or where none is mentioned,
-- `feature` without.
abbrev pub Detects : Text → ℕ → String × Bool → Type 0
Detects low words r =
    ((sc : String) × IsFirst low keyword_scopes sc
      × (((words < 5) ⊎ (is_specific sc ≡ true)) × (r ≡ (sc, true))
          ⊎ (5 ≤ words) × (is_specific sc ≡ false) × (r ≡ (scope_feature, false))))
    ⊎ All (λ row. IsSilent low row.0) keyword_scopes × (r ≡ (scope_feature, false))
