-- ===== src/Operations/AzureSecrets.antt =====
-- api/traits.rs: `AzureSecretsOperations`, and its blocking form.
use vault_client_rs.Prelude.{Bool, List}
use vault_client_rs.Prelude.Text.{Text}
use vault_client_rs.Client.{VaultClient}
use vault_client_rs.Effect.{Env, World, M}
use vault_client_rs.Wire.{Decode}
use vault_client_rs.Operations.{block_on}
use vault_client_rs.Engines.Azure
use vault_client_rs.Engines.Azure.{
  AzureConfigRequest, AzureConfig, AzureRoleRequest, AzureRole, AzureCredentials,
}

pub record AzureSecretsOperations (F : Type 0 → Type 0) : Type 0 where
  pub configure : AzureConfigRequest → F (Unit {0})
  pub read_config : F AzureConfig
  pub delete_config : F (Unit {0})
  pub create_role : Text → AzureRoleRequest → F (Unit {0})
  pub read_role : Text → F AzureRole
  pub delete_role : Text → F (Unit {0})
  pub list_roles : F (List Text)
  pub get_credentials : Text → F AzureCredentials

-- The implementation by the handler, with the decoders of the responses.
unfoldable pub azure_secrets_handler :
    (env : Env) (waiting : World → World) (c : VaultClient) (mount : Text)
    (read_azure_config : Decode AzureConfig) (read_azure_role : Decode AzureRole)
    (read_azure_credentials : Decode AzureCredentials)
    → AzureSecretsOperations M
azure_secrets_handler env waiting c mount read_azure_config read_azure_role read_azure_credentials =
    record {
      configure = Azure.configure env waiting c mount;
      read_config = Azure.read_config env waiting c mount read_azure_config;
      delete_config = Azure.delete_config env waiting c mount;
      create_role = Azure.create_role env waiting c mount;
      read_role = Azure.read_role env waiting c mount read_azure_role;
      delete_role = Azure.delete_role env waiting c mount;
      list_roles = Azure.list_roles env waiting c mount;
      get_credentials = Azure.get_credentials env waiting c mount read_azure_credentials;
    }

-- `AzureSecretsHandler` of blocking/mod.rs.
unfoldable pub blocking_azure_secrets : Bool → AzureSecretsOperations M → AzureSecretsOperations M
unfolding block_on
blocking_azure_secrets in_runtime o = record {
  configure = λ a. block_on in_runtime (o.configure a);
  read_config = block_on in_runtime o.read_config;
  delete_config = block_on in_runtime o.delete_config;
  create_role = λ a b. block_on in_runtime (o.create_role a b);
  read_role = λ a. block_on in_runtime (o.read_role a);
  delete_role = λ a. block_on in_runtime (o.delete_role a);
  list_roles = block_on in_runtime o.list_roles;
  get_credentials = λ a. block_on in_runtime (o.get_credentials a);
}
