-- ===== src/Operations/AzureAuth.antt =====
-- api/traits.rs: `AzureAuthOperations`, and its blocking form.
use vault_client_rs.Prelude.{Bool, Option, List}
use vault_client_rs.Prelude.Text.{Text}
use vault_client_rs.VaultResponse.{AuthInfo}
use vault_client_rs.EncodePath.{encode_path}
use vault_client_rs.Client.{VaultClient}
use vault_client_rs.Effect.{Env, World, M}
use vault_client_rs.Wire.{Decode}
use vault_client_rs.Auth.{azure_login}
use vault_client_rs.Operations.{block_on}
use vault_client_rs.AuthAdmin.Azure
use vault_client_rs.AuthAdmin.Azure.{
  AzureAuthConfigRequest, AzureAuthConfig, AzureAuthRoleRequest, AzureAuthRoleInfo,
}

pub record AzureAuthOperations (F : Type 0 → Type 0) : Type 0 where
  pub login : Text → Text → Option Text → Option Text → Option Text → Option Text → F AuthInfo
  pub configure : AzureAuthConfigRequest → F (Unit {0})
  pub read_config : F AzureAuthConfig
  pub create_role : Text → AzureAuthRoleRequest → F (Unit {0})
  pub read_role : Text → F AzureAuthRoleInfo
  pub delete_role : Text → F (Unit {0})
  pub list_roles : F (List Text)

-- The implementation by the handler, with the decoders of the responses.
unfoldable pub azure_auth_handler :
    (env : Env) (waiting : World → World) (c : VaultClient) (mount : Text)
    (read_azure_auth_config : Decode AzureAuthConfig)
    (read_azure_auth_role_info : Decode AzureAuthRoleInfo)
    → AzureAuthOperations M
azure_auth_handler env waiting c mount read_azure_auth_config read_azure_auth_role_info = record {
  login = azure_login env waiting c mount;
  configure = Azure.configure env waiting c (encode_path mount);
  read_config = Azure.read_config env waiting c (encode_path mount) read_azure_auth_config;
  create_role = Azure.create_role env waiting c (encode_path mount);
  read_role = Azure.read_role env waiting c (encode_path mount) read_azure_auth_role_info;
  delete_role = Azure.delete_role env waiting c (encode_path mount);
  list_roles = Azure.list_roles env waiting c (encode_path mount);
}

-- `AzureAuthHandler` of blocking/mod.rs.
unfoldable pub blocking_azure_auth : Bool → AzureAuthOperations M → AzureAuthOperations M
unfolding block_on
blocking_azure_auth in_runtime o = record {
  login = λ a b d e f g. block_on in_runtime (o.login a b d e f g);
  configure = λ a. block_on in_runtime (o.configure a);
  read_config = block_on in_runtime o.read_config;
  create_role = λ a b. block_on in_runtime (o.create_role a b);
  read_role = λ a. block_on in_runtime (o.read_role a);
  delete_role = λ a. block_on in_runtime (o.delete_role a);
  list_roles = block_on in_runtime o.list_roles;
}
