-- ===== src/Operations/AwsAuth.antt =====
-- api/traits.rs: `AwsAuthOperations`, and its blocking form.
use vault_client_rs.Prelude.{Bool, List, inr}
use vault_client_rs.Prelude.Text.{Text}
use vault_client_rs.VaultResponse.{AuthInfo}
use vault_client_rs.EncodePath.{encode_path}
use vault_client_rs.Client.{VaultClient}
use vault_client_rs.Effect.{Env, World, M}
use vault_client_rs.Wire.{Decode}
use vault_client_rs.Auth.{aws_login}
use vault_client_rs.Operations.{block_on}
use vault_client_rs.AuthAdmin.Aws
use vault_client_rs.AuthAdmin.Aws.{
  AwsAuthConfigRequest, AwsAuthConfig, AwsAuthRoleRequest, AwsAuthRoleInfo, AwsAuthLoginRequest,
  aws_auth_login_request_body, aws_auth_login_request_body,
}

pub record AwsAuthOperations (F : Type 0 → Type 0) : Type 0 where
  pub login : AwsAuthLoginRequest → F AuthInfo
  pub configure : AwsAuthConfigRequest → F (Unit {0})
  pub read_config : F AwsAuthConfig
  pub create_role : Text → AwsAuthRoleRequest → F (Unit {0})
  pub read_role : Text → F AwsAuthRoleInfo
  pub delete_role : Text → F (Unit {0})
  pub list_roles : F (List Text)

-- The implementation by the handler, with the decoders of the responses.
unfoldable pub aws_auth_handler :
    (env : Env) (waiting : World → World) (c : VaultClient) (mount : Text)
    (read_aws_auth_config : Decode AwsAuthConfig) (read_aws_auth_role_info : Decode AwsAuthRoleInfo)
    → AwsAuthOperations M
aws_auth_handler env waiting c mount read_aws_auth_config read_aws_auth_role_info = record {
  login = λ params. aws_login env waiting c mount (inr (aws_auth_login_request_body params));
  configure = Aws.configure env waiting c (encode_path mount);
  read_config = Aws.read_config env waiting c (encode_path mount) read_aws_auth_config;
  create_role = Aws.create_role env waiting c (encode_path mount);
  read_role = Aws.read_role env waiting c (encode_path mount) read_aws_auth_role_info;
  delete_role = Aws.delete_role env waiting c (encode_path mount);
  list_roles = Aws.list_roles env waiting c (encode_path mount);
}

-- `AwsAuthHandler` of blocking/mod.rs.
unfoldable pub blocking_aws_auth : Bool → AwsAuthOperations M → AwsAuthOperations M
unfolding block_on
blocking_aws_auth in_runtime o = record {
  login = λ a. block_on in_runtime (o.login a);
  configure = λ a. block_on in_runtime (o.configure a);
  read_config = block_on in_runtime o.read_config;
  create_role = λ a b. block_on in_runtime (o.create_role a b);
  read_role = λ a. block_on in_runtime (o.read_role a);
  delete_role = λ a. block_on in_runtime (o.delete_role a);
  list_roles = block_on in_runtime o.list_roles;
}
