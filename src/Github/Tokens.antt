-- ===== src/Github/Tokens.antt =====
-- internal/github/token_cache.go, errors.go and native.go: the cache of the installation token, and
-- getToken. A time is a number of nanoseconds. The key file, the JWT and GitHub are an input: they
-- say how an exchange ends. The texts of the errors are left out, but for what their codes say.
use devteam.Prelude.{
  Bool, Option, String, inl, inr, ltb, none, some, ℕ, ◌+◌, ◌*◌, ◌⊎◌, ◌&&◌, ◌||◌, ◌==◌,
  if◌then◌else◌, nat_eq, string_eq, text_eq,
}
use devteam.Github.Credentials.{
  Cipher, Credstore, CredError, load_installation_token, load_pat, has_pat,
  store_installation_token,
}

pub record TokenCache : Type 0 where
  pub token : String
  pub expires_at : ℕ
  pub refreshed_at : ℕ
  pub prov : String
  pub ttl : ℕ

abbrev pub new_token_cache : ℕ → TokenCache
new_token_cache ttl = record { token = ""; expires_at = 0; refreshed_at = 0; prov = ""; ttl = ttl }

-- tokenCache.get at a time
abbrev pub get : ℕ → TokenCache → Option String
get now tc = if tc.token == "" || ltb tc.expires_at now then none else some tc.token

-- tokenCache.set; the last time is that of the expiry, now and the time to live together.
abbrev pub set : ℕ → String → String → ℕ → TokenCache → TokenCache
set now token provenance expires_at tc = record tc {
  token = token;
  refreshed_at = now;
  expires_at = expires_at;
  prov = provenance;
}

abbrev pub second : ℕ
second = 1000000000

unfoldable pub provenance : ℕ → TokenCache → String
provenance now tc =
    if tc.prov == ""
    then "cached"
    else if ltb now (tc.refreshed_at + second)
    then tc.prov
    else "cached"

pub data AuthError : Type 0 where
  installation_not_found installation_suspended key_rejected key_file_missing : AuthError
  key_file_invalid pat_fallback_exhausted : AuthError
  other_error : String → AuthError

-- How an exchange of the App's key for a token goes: the key file, the JWT, then GitHub's answer,
-- with a status if there was a response. A token comes with the expiry that GitHub gives, if any.
pub data Exchange : Type 0 where
  unreadable_key not_pem no_jwt no_response : Exchange
  refused : ℕ → String → Exchange
  granted : String → Option ℕ → Exchange

unfoldable pub classify_api_error : Option ℕ → String → AuthError
classify_api_error none err = pat_fallback_exhausted
classify_api_error (some code) err =
    if code == 401
    then key_rejected
    else if code == 403
    then installation_suspended
    else if code == 404
    then installation_not_found
    else other_error err

abbrev default_expiry : ℕ → Option ℕ → ℕ
default_expiry now none = now + 60 * 60 * second
default_expiry now (some t) = t

unfoldable pub exchange_installation_token : ℕ → Exchange → AuthError ⊎ (String × ℕ)
exchange_installation_token now unreadable_key = inl key_file_missing
exchange_installation_token now not_pem = inl key_file_invalid
exchange_installation_token now no_jwt = inl key_rejected
exchange_installation_token now no_response = inl (classify_api_error none "")
exchange_installation_token now (refused code err) = inl (classify_api_error (some code) err)
exchange_installation_token now (granted token expires) =
    if token == "" then inl key_rejected else inr (token, default_expiry now expires)

-- The parts of NativeClient that getToken reads and changes.
pub record Client : Type 0 where
  pub cache : TokenCache
  pub credstore : Credstore
  pub pat_fallback : Bool

abbrev pub with_cache : TokenCache → Client → Client
with_cache tc client = record client { cache = tc }

-- A call: its time, how an exchange would go, and the nonce for a token that is stored.
pub record Call : Type 0 where
  pub now : ℕ
  pub exchange : Exchange
  pub nonce : String

abbrev pub nonempty : CredError ⊎ String → Option String
nonempty (inl e) = none
nonempty (inr token) = if token == "" then none else some token

unfoldable pub fall_back : Cipher → ℕ → AuthError → Client → Client × (AuthError ⊎ String)
fall_back cipher now err client =
    if client.pat_fallback && has_pat cipher now client.credstore
    then elim (nonempty (load_pat cipher now client.credstore)) [
      | none ↦ (client, inl err)
      | some pat ↦ (
        with_cache (set now pat "fallback (PAT)" (now + client.cache.ttl) client.cache) client,
        inr pat,
      )
    ]
    else (client, inl err)

unfoldable pub cold_path : Cipher → Call → Client → Client × (AuthError ⊎ String)
cold_path cipher call client = elim (exchange_installation_token call.now call.exchange) [
  | inl err ↦ fall_back cipher call.now err client
  | inr (token, expires_at) ↦
      let tc = set call.now token "refreshed" expires_at client.cache in
      let (cs, ignored) =
        store_installation_token cipher call.now call.nonce token expires_at client.credstore in
      (record client { cache = tc; credstore = cs }, inr token)
]

unfoldable pub get_token : Cipher → Call → Client → Client × (AuthError ⊎ String)
get_token cipher call client = elim (get call.now client.cache) [
  | some token ↦ (client, inr token)
  | none ↦ elim (nonempty (load_installation_token cipher call.now client.credstore)) [
    | some persisted ↦
        let expires_at = call.now + client.cache.ttl in
        (
          with_cache (set call.now persisted "re-exchanged" expires_at client.cache) client,
          inr persisted,
        )
    | none ↦ cold_path cipher call client
  ]
]

-- TokenProvenance: where the token comes from that getToken returns.
unfoldable pub token_provenance : Cipher → Call → Client → Client × (AuthError ⊎ String)
token_provenance cipher call client =
    let (client', answer) = get_token cipher call client in
    elim answer [
      | inl err ↦ (client', inl err)
      | inr token ↦ (client', inr (provenance call.now client'.cache))
    ]
