-- ===== src/Engines/Gcp.antt =====
-- api/gcp.rs, types/gcp.rs: the Gcp handler, and its types.
use vault_client_rs.Prelude.{ℕ, Option, none, some, List}
use vault_client_rs.Prelude.Text.{Text, codes}
use vault_client_rs.Json.{Json, string, object, end}
use vault_client_rs.Client.{VaultClient}
use vault_client_rs.Effect.{Env, get, post, Method, World, M}
use vault_client_rs.Execute.{exec_with_data, exec_empty, exec_list}
use vault_client_rs.Wire.{Decode, below, named, named_under, unless_none, array_of}

pub record GcpConfigRequest : Type 0 where
  pub credentials : Option Text
  pub ttl : Option Text
  pub max_ttl : Option Text

unfoldable pub gcp_config_request_body : GcpConfigRequest → Json
gcp_config_request_body p = object (
    unless_none string (codes "credentials") p.credentials
      (unless_none string (codes "ttl") p.ttl (unless_none string (codes "max_ttl") p.max_ttl end)))

pub record GcpConfig : Type 0 where
  pub ttl : ℕ
  pub max_ttl : ℕ

pub record GcpRolesetRequest : Type 0 where
  pub project : Option Text
  pub bindings : Option Text
  pub secret_type : Option Text
  pub token_scopes : Option (List Text)

unfoldable pub gcp_roleset_request_body : GcpRolesetRequest → Json
gcp_roleset_request_body p = object (
    unless_none string (codes "project") p.project (
      unless_none string (codes "bindings") p.bindings (
        unless_none string (codes "secret_type") p.secret_type
          (unless_none (array_of string) (codes "token_scopes") p.token_scopes end))))

pub record GcpRoleset : Type 0 where
  pub project : Text
  pub bindings : Json
  pub secret_type : Text
  pub token_scopes : List Text
  pub service_account_email : Text

pub record GcpServiceAccountKey : Type 0 where
  pub private_key_data : Text
  pub key_algorithm : Text
  pub key_type : Text

pub record GcpOAuthToken : Type 0 where
  pub token : Text
  pub expires_at_seconds : ℕ
  pub token_ttl : ℕ

module _ (env : Env) (waiting : World → World) (c : VaultClient) (mount : Text) where
  unfoldable pub configure : GcpConfigRequest → M (Unit {0})
  configure params =
      exec_empty env waiting c post (below mount "/config") (some (gcp_config_request_body params))

  unfoldable pub read_config : Decode GcpConfig → M GcpConfig
  read_config decode = exec_with_data env waiting c decode get (below mount "/config") none

  unfoldable pub delete_config : M (Unit {0})
  delete_config = exec_empty env waiting c Method.delete (below mount "/config") none

  unfoldable pub create_roleset : Text → GcpRolesetRequest → M (Unit {0})
  create_roleset name params =
      exec_empty env waiting c post (named mount "/roleset/" name)
        (some (gcp_roleset_request_body params))

  unfoldable pub read_roleset : Decode GcpRoleset → Text → M GcpRoleset
  read_roleset decode name =
      exec_with_data env waiting c decode get (named mount "/roleset/" name) none

  unfoldable pub delete_roleset : Text → M (Unit {0})
  delete_roleset name = exec_empty env waiting c Method.delete (named mount "/roleset/" name) none

  unfoldable pub list_rolesets : M (List Text)
  list_rolesets = exec_list env waiting c (below mount "/rolesets")

  unfoldable pub get_service_account_key :
      Decode GcpServiceAccountKey → Text → M GcpServiceAccountKey
  get_service_account_key decode roleset =
      exec_with_data env waiting c decode get (named mount "/key/" roleset) none

  unfoldable pub get_oauth_token : Decode GcpOAuthToken → Text → M GcpOAuthToken
  get_oauth_token decode roleset =
      exec_with_data env waiting c decode get (named mount "/token/" roleset) none

  unfoldable pub rotate_roleset : Text → M (Unit {0})
  rotate_roleset name =
      exec_empty env waiting c post (named_under mount "/roleset/" name "/rotate") none
