-- ===== src/Operations/UserpassAuth.antt =====
-- api/traits.rs: `UserpassAuthOperations`, and its blocking form.
use vault_client_rs.Prelude.{Bool, List}
use vault_client_rs.Prelude.Text.{Text}
use vault_client_rs.VaultResponse.{AuthInfo}
use vault_client_rs.EncodePath.{encode_path}
use vault_client_rs.Client.{VaultClient}
use vault_client_rs.Effect.{Env, World, M}
use vault_client_rs.Wire.{Decode}
use vault_client_rs.Auth.{password_login}
use vault_client_rs.Operations.{block_on}
use vault_client_rs.AuthAdmin.Userpass
use vault_client_rs.AuthAdmin.Userpass.{UserpassUserRequest, UserpassUserInfo}

pub record UserpassAuthOperations (F : Type 0 → Type 0) : Type 0 where
  pub login : Text → Text → F AuthInfo
  pub create_user : Text → UserpassUserRequest → F (Unit {0})
  pub read_user : Text → F UserpassUserInfo
  pub delete_user : Text → F (Unit {0})
  pub list_users : F (List Text)
  pub update_password : Text → Text → F (Unit {0})

-- The implementation by the handler, with the decoders of the responses.
unfoldable pub userpass_auth_handler :
    (env : Env) (waiting : World → World) (c : VaultClient) (mount : Text)
    (read_userpass_user_info : Decode UserpassUserInfo)
    → UserpassAuthOperations M
userpass_auth_handler env waiting c mount read_userpass_user_info = record {
  login = password_login env waiting c mount;
  create_user = Userpass.create_user env waiting c (encode_path mount);
  read_user = Userpass.read_user env waiting c (encode_path mount) read_userpass_user_info;
  delete_user = Userpass.delete_user env waiting c (encode_path mount);
  list_users = Userpass.list_users env waiting c (encode_path mount);
  update_password = Userpass.update_password env waiting c (encode_path mount);
}

-- `UserpassAuthHandler` of blocking/mod.rs.
unfoldable pub blocking_userpass_auth : Bool → UserpassAuthOperations M → UserpassAuthOperations M
unfolding block_on
blocking_userpass_auth in_runtime o = record {
  login = λ a b. block_on in_runtime (o.login a b);
  create_user = λ a b. block_on in_runtime (o.create_user a b);
  read_user = λ a. block_on in_runtime (o.read_user a);
  delete_user = λ a. block_on in_runtime (o.delete_user a);
  list_users = block_on in_runtime o.list_users;
  update_password = λ a b. block_on in_runtime (o.update_password a b);
}
