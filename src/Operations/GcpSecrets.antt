-- ===== src/Operations/GcpSecrets.antt =====
-- api/traits.rs: `GcpSecretsOperations`, and its blocking form.
use vault_client_rs.Prelude.{Bool, List}
use vault_client_rs.Prelude.Text.{Text}
use vault_client_rs.Client.{VaultClient}
use vault_client_rs.Effect.{Env, World, M}
use vault_client_rs.Wire.{Decode}
use vault_client_rs.Operations.{block_on}
use vault_client_rs.Engines.Gcp
use vault_client_rs.Engines.Gcp.{
  GcpConfigRequest, GcpConfig, GcpRolesetRequest, GcpRoleset, GcpServiceAccountKey, GcpOAuthToken,
}

pub record GcpSecretsOperations (F : Type 0 → Type 0) : Type 0 where
  pub configure : GcpConfigRequest → F (Unit {0})
  pub read_config : F GcpConfig
  pub delete_config : F (Unit {0})
  pub create_roleset : Text → GcpRolesetRequest → F (Unit {0})
  pub read_roleset : Text → F GcpRoleset
  pub delete_roleset : Text → F (Unit {0})
  pub list_rolesets : F (List Text)
  pub get_service_account_key : Text → F GcpServiceAccountKey
  pub get_oauth_token : Text → F GcpOAuthToken
  pub rotate_roleset : Text → F (Unit {0})

-- The implementation by the handler, with the decoders of the responses.
unfoldable pub gcp_secrets_handler :
    (env : Env) (waiting : World → World) (c : VaultClient) (mount : Text)
    (read_gcp_config : Decode GcpConfig) (read_gcp_roleset : Decode GcpRoleset)
    (read_gcp_service_account_key : Decode GcpServiceAccountKey)
    (read_gcp_o_auth_token : Decode GcpOAuthToken)
    → GcpSecretsOperations M
gcp_secrets_handler env waiting c mount read_gcp_config read_gcp_roleset
      read_gcp_service_account_key read_gcp_o_auth_token =
    record {
      configure = Gcp.configure env waiting c mount;
      read_config = Gcp.read_config env waiting c mount read_gcp_config;
      delete_config = Gcp.delete_config env waiting c mount;
      create_roleset = Gcp.create_roleset env waiting c mount;
      read_roleset = Gcp.read_roleset env waiting c mount read_gcp_roleset;
      delete_roleset = Gcp.delete_roleset env waiting c mount;
      list_rolesets = Gcp.list_rolesets env waiting c mount;
      get_service_account_key =
          Gcp.get_service_account_key env waiting c mount read_gcp_service_account_key;
      get_oauth_token = Gcp.get_oauth_token env waiting c mount read_gcp_o_auth_token;
      rotate_roleset = Gcp.rotate_roleset env waiting c mount;
    }

-- `GcpSecretsHandler` of blocking/mod.rs.
unfoldable pub blocking_gcp_secrets : Bool → GcpSecretsOperations M → GcpSecretsOperations M
unfolding block_on
blocking_gcp_secrets in_runtime o = record {
  configure = λ a. block_on in_runtime (o.configure a);
  read_config = block_on in_runtime o.read_config;
  delete_config = block_on in_runtime o.delete_config;
  create_roleset = λ a b. block_on in_runtime (o.create_roleset a b);
  read_roleset = λ a. block_on in_runtime (o.read_roleset a);
  delete_roleset = λ a. block_on in_runtime (o.delete_roleset a);
  list_rolesets = block_on in_runtime o.list_rolesets;
  get_service_account_key = λ a. block_on in_runtime (o.get_service_account_key a);
  get_oauth_token = λ a. block_on in_runtime (o.get_oauth_token a);
  rotate_roleset = λ a. block_on in_runtime (o.rotate_roleset a);
}
