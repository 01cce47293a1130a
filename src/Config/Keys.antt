-- ===== src/Config/Keys.antt =====
-- internal/config/types.go and resolve.go: the state of a provider's key, and its use.
use devteam.Prelude.{
  Bool-cases, String, inl, inr, refl, string_eq, unlike, ◌≡◌, ◌≢◌, ◌↔◌, ◌⊎◌, ◌==◌, nat_eq, text_eq,
}
use devteam.Config.Types.{
  ProviderConfig, derive_key_state, strip_dollar, key_state_set, key_state_not_set,
  key_state_not_required,
}
use devteam.Config.Resolve.{failed, key_not_set, resolve_key}

module _ (getenv : String → String) (p : ProviderConfig) (model : String) where
  -- What the state of the key says of the use of the provider: a key that is not set fails, and one
  -- that is set or not required does not, unless the reference has no name behind its dollar sign.
  abbrev pub Foretells : String → Type 0
  Foretells state =
      (resolve_key getenv p model ≡ failed (key_not_set p.name))
      ↔ (state ≡ key_state_not_set)
        ⊎ (p.api_key_env ≢ "") × (strip_dollar p.api_key_env ≡ "") × (getenv "" ≡ "")

  -- A provider cannot be used for want of its key exactly if the state of its key is "not_set", or
  -- if its reference is a dollar sign alone and no variable has the empty name; then the state is
  -- "not_required".
  pub resolve_key-Foretells : Foretells (derive_key_state getenv p.api_key_env)
  unfolding resolve_key derive_key_state
  resolve_key-Foretells = elim (Bool-cases (p.api_key_env == "")) [
    | inl none_there ↦ rw none_there (
      (λ e. absurd (cc e)),
      (λ s. elim s [
        | inl e ↦ absurd (unlike key_state_not_required key_state_not_set refl e)
        | inr (there, _, _) ↦ absurd (there ((string_eq.beq_iff p.api_key_env "").0 none_there))
      ]),
    )
    | inr there ↦
        let is_there : p.api_key_env ≢ "" = unlike p.api_key_env "" there in
        elim (Bool-cases (strip_dollar p.api_key_env == "")) [
          | inl bare ↦
              let e : strip_dollar p.api_key_env ≡ "" =
                (string_eq.beq_iff (strip_dollar p.api_key_env) "").0 bare in
              elim (Bool-cases (getenv "" == "")) [
                | inl unset ↦
                    rw (there, bare, e, unset)
                      (
                        (λ _. inr (is_there, refl, (string_eq.beq_iff (getenv "") "").0 unset)),
                        (λ _. refl),
                      )
                | inr set ↦
                    rw (there, bare, e, set)
                      (
                        (λ e. absurd (cc e)),
                        (λ s. elim s [
                          | inl e ↦ absurd (unlike key_state_not_required key_state_not_set refl e)
                          | inr (_, _, unset) ↦ absurd (unlike (getenv "") "" set unset)
                        ]),
                      )
              ]
          | inr filled ↦ elim (Bool-cases (getenv (strip_dollar p.api_key_env) == "")) [
            | inl unset ↦ rw (there, filled, unset) ((λ _. inl refl), (λ _. refl))
            | inr set ↦
                rw (there, filled, set)
                  (
                    (λ e. absurd (cc e)),
                    (λ s. elim s [
                      | inl e ↦ absurd (unlike key_state_set key_state_not_set refl e)
                      | inr (_, bare, _) ↦
                          absurd (unlike (strip_dollar p.api_key_env) "" filled bare)
                    ]),
                  )
          ]
        ]
  ]
