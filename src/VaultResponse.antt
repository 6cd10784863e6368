-- ===== src/VaultResponse.antt =====
-- types/response.rs: the envelope of a Vault response, and what a login returns.
use vault_client_rs.Prelude.{ℕ, Bool, Option, List}
use vault_client_rs.Prelude.Text.{Text}
use vault_client_rs.Json.{Json}

pub record AuthInfo : Type 0 where
  pub client_token : Text
  pub accessor : Text
  pub policies : List Text
  pub token_policies : List Text
  pub metadata : Option (List (Text × Text))
  pub lease_duration : ℕ  -- u64, seconds
  pub renewable : Bool
  pub entity_id : Text
  pub token_type : Text
  pub orphan : Bool
  pub mfa_requirement : Option Json
  pub num_uses : Option ℕ

pub record WrapInfo : Type 0 where
  pub token : Text
  pub accessor : Text
  pub ttl : ℕ
  pub creation_time : Text
  pub creation_path : Text
  pub wrapped_accessor : Option Text

pub record VaultResponse {ℓ} (T : Type ℓ) : Type ℓ where
  pub request_id : Option Text
  pub lease_id : Option Text
  pub lease_duration : Option ℕ
  pub renewable : Option Bool
  pub data_field : Option T
  pub auth : Option AuthInfo
  pub warnings : Option (List Text)
  pub wrap_info : Option WrapInfo

-- types/kv.rs: the payload of a list endpoint.
pub record ListResponse : Type 0 where
  pub keys : List Text
