-- ===== src/Config/Types.antt =====
-- internal/config/types.go: providers, tiers and overrides, and the state of a provider's key.
use devteam.Prelude.{
  Bool, List, String, codes, cut_prefix, none, not, some, ◌==◌, if◌then◌else◌, nat_eq, string_eq,
  text_eq,
}

pub record ProviderModel : Type 0 where
  pub provider_name : String
  pub model_id : String
  pub friendly_name : String

pub record ProviderConfig : Type 0 where
  pub name : String
  pub display_name : String
  pub enabled : Bool
  pub base_url : String
  pub api_key_env : String
  pub default_model_id : String
  pub npm_adapter : String
  pub env_var_supported : Bool
  pub preset_id : String
  pub models : List ProviderModel
  pub key_state : String

pub record TierModel : Type 0 where
  pub tier : String
  pub provider_name : String
  pub model_id : String

pub record RoleOverride : Type 0 where
  pub role : String
  pub provider_name : String
  pub model_id : String

pub record ResolvedProvider : Type 0 where
  pub base_url : String
  pub model : String
  pub api_key_env : String
  pub api_key_value : String

abbrev pub key_state_set : String
key_state_set = "set"

abbrev pub key_state_not_set : String
key_state_not_set = "not_set"

abbrev pub key_state_not_required : String
key_state_not_required = "not_required"

-- A reference to a variable without its leading dollar sign.
unfoldable pub strip_dollar : String → String
strip_dollar s = elim (cut_prefix (codes "$") s) [ some rest ↦ rest | none ↦ s ]

-- `getenv` is the environment, os.Getenv.
unfoldable pub derive_key_state : (String → String) → String → String
derive_key_state getenv api_key_env =
    if api_key_env == ""
    then key_state_not_required
    else let env_name = strip_dollar api_key_env in
      if env_name == ""
      then key_state_not_required
      else if not (getenv env_name == "")
      then key_state_set
      else key_state_not_set
