-- ===== src/Github/Credentials.antt =====
-- internal/github/credstore.go: the credentials in the database. AES-GCM and SHA-256 are a
-- parameter, and the nonce that crypto/rand gives is an argument. The serial id and created_at are
-- left out: a row that is inserted comes last.
use devteam.Prelude.{
  Bool, List, Option, String, [], change, false, inl, inr, ltb, none, not, some, true, ℕ, ◌⊎◌, ◌&&◌,
  ◌∷◌, ◌++◌, ◌==◌, if◌then◌else◌, nat_eq, string_eq, text_eq,
}

-- `seal` of a plaintext and a nonce, and `unseal` of a ciphertext and a nonce.
pub record Cipher : Type 0 where
  pub seal : String → String → Option String
  pub unseal : String → String → Option String
  pub fingerprint : String → String

pub record Credential : Type 0 where
  pub kind : String
  pub fingerprint : String
  pub ciphertext : String
  pub nonce : String
  pub expires_at : Option ℕ
  pub rotated_at : Option ℕ

-- The table, whether there is a database that answers, and whether its driver accepts the text of a
-- statement: credstore.go passes its texts to database/sql as they are.
pub record Credstore : Type 0 where
  pub up : Bool
  pub accepts : String → Bool
  pub credentials : List Credential

pub data CredError : Type 0 where
  no_database no_active_credential ciphertext_tampered not_encrypted statement_refused : CredError

abbrev pub kind_installation_token : String
kind_installation_token = "installation_token"

abbrev pub kind_pat : String
kind_pat = "pat"

abbrev pub is_active : String → Credential → Bool
is_active kind c = c.kind == kind && is_none c.rotated_at
  where
    is_none : Option ℕ → Bool
    is_none none = true
    is_none (some t) = false

abbrev pub rotate : ℕ → Credential → Credential
rotate now c = record c { rotated_at = some now }

abbrev pub rotate_sql : String
rotate_sql =
    "UPDATE credentials SET rotated_at = CURRENT_TIMESTAMP WHERE kind = ? AND rotated_at IS NULL"

abbrev pub insert_sql : String
insert_sql =
    "INSERT INTO credentials (kind, fingerprint, ciphertext, nonce, expires_at, created_at) VALUES (?, ?, ?, ?, ?, CURRENT_TIMESTAMP)"

abbrev pub select_sql : String
select_sql =
    "SELECT ciphertext, nonce, expires_at FROM credentials WHERE kind = ? AND rotated_at IS NULL ORDER BY id DESC LIMIT 1"

-- Both statements are one transaction.
unfoldable pub store_credential :
    Cipher → ℕ → String → String → String → Option ℕ → Credstore → Credstore × Option CredError
store_credential cipher now nonce kind plaintext expires_at cs =
    if not cs.up then (cs, some no_database) else elim (cipher.seal plaintext nonce) [
      | none ↦ (cs, some not_encrypted)
      | some ciphertext ↦
          let row : Credential = record {
            kind = kind;
            fingerprint = cipher.fingerprint plaintext;
            ciphertext = ciphertext;
            nonce = nonce;
            expires_at = expires_at;
            rotated_at = none;
          } in
          let rows = change (is_active kind) (rotate now) cs.credentials ++ row ∷ [] in
          if cs.accepts rotate_sql && cs.accepts insert_sql
          then (record cs { credentials = rows }, none)
          else (cs, some statement_refused)
    ]

-- ORDER BY id DESC LIMIT 1
abbrev pub last_active : String → List Credential → Option Credential
last_active kind [] = none
last_active kind (c ∷ cs) = elim (last_active kind cs) [
  | some d ↦ some d
  | none ↦ if is_active kind c then some c else none
]

abbrev pub is_expired : String → Option ℕ → ℕ → Bool
is_expired kind none now = false
is_expired kind (some t) now = kind == kind_installation_token && ltb t now

abbrev pub decrypt : Cipher → String → String → CredError ⊎ String
decrypt cipher ciphertext nonce = elim (cipher.unseal ciphertext nonce) [
  | none ↦ inl ciphertext_tampered
  | some plaintext ↦ inr plaintext
]

unfoldable pub load_active_credential : Cipher → ℕ → String → Credstore → CredError ⊎ String
load_active_credential cipher now kind cs =
    if not cs.up
    then inl no_database
    else if not (cs.accepts select_sql)
    then inl statement_refused
    else elim (last_active kind cs.credentials) [
      | none ↦ inl no_active_credential
      | some c ↦
          if is_expired kind c.expires_at now
          then inl no_active_credential
          else decrypt cipher c.ciphertext c.nonce
    ]

abbrev pub load_installation_token : Cipher → ℕ → Credstore → CredError ⊎ String
load_installation_token cipher now cs = load_active_credential cipher now kind_installation_token cs

abbrev pub load_pat : Cipher → ℕ → Credstore → CredError ⊎ String
load_pat cipher now cs = load_active_credential cipher now kind_pat cs

abbrev pub has_pat : Cipher → ℕ → Credstore → Bool
has_pat cipher now cs = elim (load_pat cipher now cs) [ inl e ↦ false | inr pat ↦ true ]

unfoldable pub store_installation_token :
    Cipher → ℕ → String → String → ℕ → Credstore → Credstore × Option CredError
store_installation_token cipher now nonce token expires_at cs =
    store_credential cipher now nonce kind_installation_token token (some expires_at) cs
