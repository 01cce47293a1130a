-- ===== src/Github/Unstored.antt =====
-- internal/github/credstore.go with native.go: getToken on a driver that has no `?` placeholders.
use devteam.Prelude.{
  Bool-cases, arith, Option, String, codes, contains, false, inl, inr, none, refl, some, true, ℕ,
  ◌≡◌, ◌⊎◌,
}
use devteam.Github.Credentials.{
  Cipher, Credstore, CredError, no_database, statement_refused, rotate_sql, select_sql,
  kind_installation_token, kind_pat, store_credential, load_active_credential, has_pat,
  store_installation_token,
}
use devteam.Github.Tokens.{
  AuthError, Client, Call, get, exchange_installation_token, fall_back, cold_path, get_token,
}

-- The driver refuses every text with a question mark, as lib/pq does, whose placeholders are $1, $2
-- and so on.
abbrev pub RefusesMarks : Credstore → Type 0
RefusesMarks cs = (sql : String) → contains (codes sql) (codes "?") ≡ true → cs.accepts sql ≡ false

store_credential-refused :
    (cipher : Cipher) (now : ℕ) (nonce kind plaintext : String) (expires : Option ℕ)
    (cs : Credstore)
    → RefusesMarks cs
    → (store_credential cipher now nonce kind plaintext expires cs).0 ≡ cs
unfolding store_credential
store_credential-refused cipher now nonce kind plaintext expires cs h =
    let refused : cs.accepts rotate_sql ≡ false = h rotate_sql refl in ground arith

load_active_credential-refused :
    (cipher : Cipher) (now : ℕ) (kind : String) (cs : Credstore)
    → RefusesMarks cs
    → (e : CredError) × (load_active_credential cipher now kind cs ≡ inl e)
unfolding load_active_credential
load_active_credential-refused cipher now kind cs h = elim (Bool-cases cs.up) [
  | inr down ↦ (no_database, rw down refl)
  | inl up ↦ (statement_refused, rw (up, h select_sql refl) refl)
]

-- What an exchange gives without the expiry of its token.
abbrev pub token_of : AuthError ⊎ (String × ℕ) → AuthError ⊎ String
token_of (inl err) = inl err
token_of (inr (token, expires)) = inr token

fall_back-refused :
    (cipher : Cipher) (now : ℕ) (err : AuthError) (client : Client)
    → RefusesMarks client.credstore
    → fall_back cipher now err client ≡ (client, inl err)
unfolding fall_back
fall_back-refused cipher now err client h =
    let (e, absent) = load_active_credential-refused cipher now kind_pat client.credstore h in
    let no_pat : has_pat cipher now client.credstore ≡ false = rw (has_pat, absent) refl in
    elim (Bool-cases client.pat_fallback) [
      | inl allowed ↦ rw (allowed, no_pat) refl
      | inr off ↦ rw off refl
    ]

cold_path-exchanges :
    (cipher : Cipher) (call : Call) (client : Client)
    → RefusesMarks client.credstore
    → let (client', answer) = cold_path cipher call client in
      (client'.credstore ≡ client.credstore)
      × (answer ≡ token_of (exchange_installation_token call.now call.exchange))
unfolding cold_path store_installation_token
cold_path-exchanges cipher call client h =
    go (exchange_installation_token call.now call.exchange) refl
  where
    go :
        (r : AuthError ⊎ (String × ℕ))
        → exchange_installation_token call.now call.exchange ≡ r
        → let (client', answer) = cold_path cipher call client in
          (client'.credstore ≡ client.credstore)
          × (answer ≡ token_of (exchange_installation_token call.now call.exchange))
    go (inl err) e =
        rw (cold_path, e) (rw (fall_back-refused cipher call.now err client h) (refl, refl))
    go (inr (token, expires)) e =
        rw (cold_path, e)
          (
            store_credential-refused cipher call.now call.nonce kind_installation_token token
                (some expires) client.credstore h,
            refl,
          )

-- On a driver that refuses question marks no credential is stored and none is loaded: without a
-- cached token, getToken changes nothing in the table, and answers the token or the error of the
-- exchange, whatever the table holds and whether or not the fallback on the personal token is on.
pub get_token-exchanges :
    (cipher : Cipher) (call : Call) (client : Client)
    → RefusesMarks client.credstore
    → get call.now client.cache ≡ none
    → let (client', answer) = get_token cipher call client in
      (client'.credstore ≡ client.credstore)
      × (answer ≡ token_of (exchange_installation_token call.now call.exchange))
unfolding get_token
get_token-exchanges cipher call client h cold =
    let (e, absent) =
      load_active_credential-refused cipher call.now kind_installation_token client.credstore h in
    rw (get_token, cold, absent) (cold_path-exchanges cipher call client h)
