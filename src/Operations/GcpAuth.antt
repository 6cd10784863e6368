-- ===== src/Operations/GcpAuth.antt =====
-- api/traits.rs: `GcpAuthOperations`, and its blocking form.
use vault_client_rs.Prelude.{Bool, List}
use vault_client_rs.Prelude.Text.{Text}
use vault_client_rs.VaultResponse.{AuthInfo}
use vault_client_rs.EncodePath.{encode_path}
use vault_client_rs.Client.{VaultClient}
use vault_client_rs.Effect.{Env, World, M}
use vault_client_rs.Wire.{Decode}
use vault_client_rs.Auth.{jwt_login}
use vault_client_rs.Operations.{block_on}
use vault_client_rs.AuthAdmin.Gcp
use vault_client_rs.AuthAdmin.Gcp.{
  GcpAuthConfigRequest, GcpAuthConfig, GcpAuthRoleRequest, GcpAuthRoleInfo,
}

pub record GcpAuthOperations (F : Type 0 → Type 0) : Type 0 where
  pub login : Text → Text → F AuthInfo
  pub configure : GcpAuthConfigRequest → F (Unit {0})
  pub read_config : F GcpAuthConfig
  pub create_role : Text → GcpAuthRoleRequest → F (Unit {0})
  pub read_role : Text → F GcpAuthRoleInfo
  pub delete_role : Text → F (Unit {0})
  pub list_roles : F (List Text)

-- The implementation by the handler, with the decoders of the responses.
unfoldable pub gcp_auth_handler :
    (env : Env) (waiting : World → World) (c : VaultClient) (mount : Text)
    (read_gcp_auth_config : Decode GcpAuthConfig) (read_gcp_auth_role_info : Decode GcpAuthRoleInfo)
    → GcpAuthOperations M
gcp_auth_handler env waiting c mount read_gcp_auth_config read_gcp_auth_role_info = record {
  login = jwt_login env waiting c mount;
  configure = Gcp.configure env waiting c (encode_path mount);
  read_config = Gcp.read_config env waiting c (encode_path mount) read_gcp_auth_config;
  create_role = Gcp.create_role env waiting c (encode_path mount);
  read_role = Gcp.read_role env waiting c (encode_path mount) read_gcp_auth_role_info;
  delete_role = Gcp.delete_role env waiting c (encode_path mount);
  list_roles = Gcp.list_roles env waiting c (encode_path mount);
}

-- `GcpAuthHandler` of blocking/mod.rs.
unfoldable pub blocking_gcp_auth : Bool → GcpAuthOperations M → GcpAuthOperations M
unfolding block_on
blocking_gcp_auth in_runtime o = record {
  login = λ a b. block_on in_runtime (o.login a b);
  configure = λ a. block_on in_runtime (o.configure a);
  read_config = block_on in_runtime o.read_config;
  create_role = λ a b. block_on in_runtime (o.create_role a b);
  read_role = λ a. block_on in_runtime (o.read_role a);
  delete_role = λ a. block_on in_runtime (o.delete_role a);
  list_roles = block_on in_runtime o.list_roles;
}
