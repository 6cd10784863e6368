-- ===== src/Operations/RadiusAuth.antt =====
-- api/traits.rs: `RadiusAuthOperations`, and its blocking form.
use vault_client_rs.Prelude.{Bool, List}
use vault_client_rs.Prelude.Text.{Text}
use vault_client_rs.VaultResponse.{AuthInfo}
use vault_client_rs.EncodePath.{encode_path}
use vault_client_rs.Client.{VaultClient}
use vault_client_rs.Effect.{Env, World, M}
use vault_client_rs.Wire.{Decode}
use vault_client_rs.Auth.{password_login}
use vault_client_rs.Operations.{block_on}
use vault_client_rs.AuthAdmin.Radius
use vault_client_rs.AuthAdmin.Radius.{
  RadiusConfigRequest, RadiusConfig, RadiusUserRequest, RadiusUser,
}

pub record RadiusAuthOperations (F : Type 0 → Type 0) : Type 0 where
  pub login : Text → Text → F AuthInfo
  pub configure : RadiusConfigRequest → F (Unit {0})
  pub read_config : F RadiusConfig
  pub write_user : Text → RadiusUserRequest → F (Unit {0})
  pub read_user : Text → F RadiusUser
  pub delete_user : Text → F (Unit {0})
  pub list_users : F (List Text)

-- The implementation by the handler, with the decoders of the responses.
unfoldable pub radius_auth_handler :
    (env : Env) (waiting : World → World) (c : VaultClient) (mount : Text)
    (read_radius_config : Decode RadiusConfig) (read_radius_user : Decode RadiusUser)
    → RadiusAuthOperations M
radius_auth_handler env waiting c mount read_radius_config read_radius_user = record {
  login = password_login env waiting c mount;
  configure = Radius.configure env waiting c (encode_path mount);
  read_config = Radius.read_config env waiting c (encode_path mount) read_radius_config;
  write_user = Radius.write_user env waiting c (encode_path mount);
  read_user = Radius.read_user env waiting c (encode_path mount) read_radius_user;
  delete_user = Radius.delete_user env waiting c (encode_path mount);
  list_users = Radius.list_users env waiting c (encode_path mount);
}

-- `RadiusAuthHandler` of blocking/mod.rs.
unfoldable pub blocking_radius_auth : Bool → RadiusAuthOperations M → RadiusAuthOperations M
unfolding block_on
blocking_radius_auth in_runtime o = record {
  login = λ a b. block_on in_runtime (o.login a b);
  configure = λ a. block_on in_runtime (o.configure a);
  read_config = block_on in_runtime o.read_config;
  write_user = λ a b. block_on in_runtime (o.write_user a b);
  read_user = λ a. block_on in_runtime (o.read_user a);
  delete_user = λ a. block_on in_runtime (o.delete_user a);
  list_users = block_on in_runtime o.list_users;
}
