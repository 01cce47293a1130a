-- ===== src/Examples/Polls.antt =====
-- The polling of GitHub and the credentials, on sample inputs.
use devteam.Prelude.{
  String, [], codes, contains, false, inr, none, not, refl, some, suc, true, zero, ℕ, ◌+◌, ◌*◌, ◌≡◌,
  ◌↔◌, ◌⊎◌, ◌∷◌,
}
use devteam.Github.Credentials.{Cipher, Credstore, kind_pat}
use devteam.Github.Tokens.{
  Call, Client, refused, exchange_installation_token, new_token_cache, get_token, second,
}
use devteam.Github.Unstored.{token_of, get_token-exchanges}
use devteam.Github.Mergeable.{
  MergeableState, mergeable_unknown, Weather, Reply, state_reply, get_mergeable_state,
}
use devteam.Github.Polling.{Decides, Ends}
use devteam.Github.Verdicts.{get_mergeable_state_iff, get_mergeable_state-IsBounded, IsBounded}

-- A cipher that hides nothing.
abbrev glass : Cipher
glass = record {
  seal = λ plaintext nonce. some plaintext;
  unseal = λ ciphertext nonce. some ciphertext;
  fingerprint = λ plaintext. "0";
}

-- A driver like lib/pq, and a table with a personal token.
abbrev pat_store : Credstore
pat_store = record {
  up = true;
  accepts = λ sql. not (contains (codes sql) (codes "?"));
  credentials =
      record {
        kind = kind_pat;
        fingerprint = "0";
        ciphertext = "ghp_1";
        nonce = "n0";
        expires_at = none;
        rotated_at = none;
      }
      ∷ [];
}

abbrev call_at : ℕ → Call
call_at now = record { now = now; exchange = refused 404 "revoked"; nonce = "n2" }

abbrev restarted : Client
restarted = record {
  cache = new_token_cache (9 * 60 * second);
  credstore = pat_store;
  pat_fallback = true;
}

get_token-exchanges_example :
    let (client', answer) = get_token glass (call_at 70) restarted in
    (client'.credstore ≡ pat_store)
    × (answer ≡ token_of (exchange_installation_token 70 (call_at 70).exchange))
get_token-exchanges_example =
    get_token-exchanges glass (call_at 70) restarted (λ sql marked. rw marked refl) refl

abbrev busy_then_clean : ℕ → Reply
busy_then_clean zero = state_reply "unknown"
busy_then_clean (suc zero) = state_reply "unstable"
busy_then_clean (suc (suc attempt)) = state_reply "clean"

abbrev calm : Weather
calm = record {
  started = 100;
  reply = busy_then_clean;
  clock = λ attempt. 100 + attempt * second;
  cancelled = λ attempt. false;
}

get_mergeable_state_iff_example :
    let p = (get_mergeable_state glass (call_at 10) calm 5 (60 * second) restarted).1 in
    ((v : MergeableState)
      → Ends p v
        ↔ (token : String) × ((get_token glass (call_at 10) restarted).1 ≡ inr token)
          × Decides calm (100 + 60 * second) 0 5 v)
    × ((p.error ≡ none) ⊎ (p.state ≡ mergeable_unknown))
get_mergeable_state_iff_example =
    get_mergeable_state_iff glass (call_at 10) calm 5 (60 * second) restarted

get_mergeable_state-IsBounded_example :
    IsBounded 5 (get_mergeable_state glass (call_at 10) calm 5 (60 * second) restarted).1
get_mergeable_state-IsBounded_example =
    get_mergeable_state-IsBounded glass (call_at 10) calm 5 (60 * second) restarted
