-- ===== src/Operations/OidcAuth.antt =====
-- api/traits.rs: `OidcAuthOperations`, and its blocking form.
use vault_client_rs.Prelude.{Bool, List}
use vault_client_rs.Prelude.Text.{Text}
use vault_client_rs.VaultResponse.{AuthInfo}
use vault_client_rs.EncodePath.{encode_path}
use vault_client_rs.Client.{VaultClient}
use vault_client_rs.Effect.{Env, World, M}
use vault_client_rs.Wire.{Decode}
use vault_client_rs.Auth.{jwt_login}
use vault_client_rs.Operations.{block_on}
use vault_client_rs.AuthAdmin.Oidc
use vault_client_rs.AuthAdmin.Oidc.{OidcConfigRequest, OidcConfig, OidcRoleRequest, OidcRoleInfo}

pub record OidcAuthOperations (F : Type 0 → Type 0) : Type 0 where
  pub login_jwt : Text → Text → F AuthInfo
  pub configure : OidcConfigRequest → F (Unit {0})
  pub read_config : F OidcConfig
  pub create_role : Text → OidcRoleRequest → F (Unit {0})
  pub read_role : Text → F OidcRoleInfo
  pub delete_role : Text → F (Unit {0})
  pub list_roles : F (List Text)

-- The implementation by the handler, with the decoders of the responses.
unfoldable pub oidc_auth_handler :
    (env : Env) (waiting : World → World) (c : VaultClient) (mount : Text)
    (read_oidc_config : Decode OidcConfig) (read_oidc_role_info : Decode OidcRoleInfo)
    → OidcAuthOperations M
oidc_auth_handler env waiting c mount read_oidc_config read_oidc_role_info = record {
  login_jwt = jwt_login env waiting c mount;
  configure = Oidc.configure env waiting c (encode_path mount);
  read_config = Oidc.read_config env waiting c (encode_path mount) read_oidc_config;
  create_role = Oidc.create_role env waiting c (encode_path mount);
  read_role = Oidc.read_role env waiting c (encode_path mount) read_oidc_role_info;
  delete_role = Oidc.delete_role env waiting c (encode_path mount);
  list_roles = Oidc.list_roles env waiting c (encode_path mount);
}

-- `OidcAuthHandler` of blocking/mod.rs.
unfoldable pub blocking_oidc_auth : Bool → OidcAuthOperations M → OidcAuthOperations M
unfolding block_on
blocking_oidc_auth in_runtime o = record {
  login_jwt = λ a b. block_on in_runtime (o.login_jwt a b);
  configure = λ a. block_on in_runtime (o.configure a);
  read_config = block_on in_runtime o.read_config;
  create_role = λ a b. block_on in_runtime (o.create_role a b);
  read_role = λ a. block_on in_runtime (o.read_role a);
  delete_role = λ a. block_on in_runtime (o.delete_role a);
  list_roles = block_on in_runtime o.list_roles;
}
