-- ===== src/Operations/AppRoleAuth.antt =====
-- api/traits.rs: `AppRoleAuthOperations`, and its blocking form.
use vault_client_rs.Prelude.{Bool, List}
use vault_client_rs.Prelude.Text.{Text}
use vault_client_rs.VaultResponse.{AuthInfo}
use vault_client_rs.EncodePath.{encode_path}
use vault_client_rs.Client.{VaultClient}
use vault_client_rs.Effect.{Env, World, M}
use vault_client_rs.Wire.{Decode}
use vault_client_rs.Auth.{approle_login}
use vault_client_rs.Operations.{block_on}
use vault_client_rs.AuthAdmin.Approle
use vault_client_rs.AuthAdmin.Approle.{
  AppRoleCreateRequest, AppRoleInfo, AppRoleRoleIdResponse, AppRoleSecretIdResponse,
}

pub record AppRoleAuthOperations (F : Type 0 → Type 0) : Type 0 where
  pub login : Text → Text → F AuthInfo
  pub create_role : Text → AppRoleCreateRequest → F (Unit {0})
  pub read_role : Text → F AppRoleInfo
  pub delete_role : Text → F (Unit {0})
  pub list_roles : F (List Text)
  pub read_role_id : Text → F Text
  pub generate_secret_id : Text → F AppRoleSecretIdResponse
  pub destroy_secret_id : Text → Text → F (Unit {0})

-- The implementation by the handler, with the decoders of the responses.
unfoldable pub app_role_auth_handler :
    (env : Env) (waiting : World → World) (c : VaultClient) (mount : Text)
    (read_app_role_info : Decode AppRoleInfo)
    (read_app_role_role_id_response : Decode AppRoleRoleIdResponse)
    (read_app_role_secret_id_response : Decode AppRoleSecretIdResponse)
    → AppRoleAuthOperations M
app_role_auth_handler env waiting c mount read_app_role_info read_app_role_role_id_response
      read_app_role_secret_id_response =
    record {
      login = approle_login env waiting c mount;
      create_role = Approle.create_role env waiting c (encode_path mount);
      read_role = Approle.read_role env waiting c (encode_path mount) read_app_role_info;
      delete_role = Approle.delete_role env waiting c (encode_path mount);
      list_roles = Approle.list_roles env waiting c (encode_path mount);
      read_role_id =
          Approle.read_role_id env waiting c (encode_path mount) read_app_role_role_id_response;
      generate_secret_id =
          Approle.generate_secret_id env waiting c (encode_path mount)
            read_app_role_secret_id_response;
      destroy_secret_id = Approle.destroy_secret_id env waiting c (encode_path mount);
    }

-- `AppRoleAuthHandler` of blocking/mod.rs.
unfoldable pub blocking_app_role_auth : Bool → AppRoleAuthOperations M → AppRoleAuthOperations M
unfolding block_on
blocking_app_role_auth in_runtime o = record {
  login = λ a b. block_on in_runtime (o.login a b);
  create_role = λ a b. block_on in_runtime (o.create_role a b);
  read_role = λ a. block_on in_runtime (o.read_role a);
  delete_role = λ a. block_on in_runtime (o.delete_role a);
  list_roles = block_on in_runtime o.list_roles;
  read_role_id = λ a. block_on in_runtime (o.read_role_id a);
  generate_secret_id = λ a. block_on in_runtime (o.generate_secret_id a);
  destroy_secret_id = λ a b. block_on in_runtime (o.destroy_secret_id a b);
}
