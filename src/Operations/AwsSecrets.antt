-- ===== src/Operations/AwsSecrets.antt =====
-- api/traits.rs: `AwsSecretsOperations`, and its blocking form.
use vault_client_rs.Prelude.{Bool, List}
use vault_client_rs.Prelude.Text.{Text}
use vault_client_rs.Client.{VaultClient}
use vault_client_rs.Effect.{Env, World, M}
use vault_client_rs.Wire.{Decode}
use vault_client_rs.Operations.{block_on}
use vault_client_rs.Engines.Aws
use vault_client_rs.Engines.Aws.{
  AwsConfigRootRequest, AwsConfigRoot, AwsRoleRequest, AwsRole, AwsCredentials, AwsStsRequest,
}

pub record AwsSecretsOperations (F : Type 0 → Type 0) : Type 0 where
  pub configure_root : AwsConfigRootRequest → F (Unit {0})
  pub read_config_root : F AwsConfigRoot
  pub rotate_root : F (Unit {0})
  pub create_role : Text → AwsRoleRequest → F (Unit {0})
  pub read_role : Text → F AwsRole
  pub delete_role : Text → F (Unit {0})
  pub list_roles : F (List Text)
  pub get_credentials : Text → F AwsCredentials
  pub get_sts_credentials : Text → AwsStsRequest → F AwsCredentials

-- The implementation by the handler, with the decoders of the responses.
unfoldable pub aws_secrets_handler :
    (env : Env) (waiting : World → World) (c : VaultClient) (mount : Text)
    (read_aws_config_root : Decode AwsConfigRoot) (read_aws_role : Decode AwsRole)
    (read_aws_credentials : Decode AwsCredentials)
    → AwsSecretsOperations M
aws_secrets_handler env waiting c mount read_aws_config_root read_aws_role read_aws_credentials =
    record {
      configure_root = Aws.configure_root env waiting c mount;
      read_config_root = Aws.read_config_root env waiting c mount read_aws_config_root;
      rotate_root = Aws.rotate_root env waiting c mount;
      create_role = Aws.create_role env waiting c mount;
      read_role = Aws.read_role env waiting c mount read_aws_role;
      delete_role = Aws.delete_role env waiting c mount;
      list_roles = Aws.list_roles env waiting c mount;
      get_credentials = Aws.get_credentials env waiting c mount read_aws_credentials;
      get_sts_credentials = Aws.get_sts_credentials env waiting c mount read_aws_credentials;
    }

-- `AwsSecretsHandler` of blocking/mod.rs.
unfoldable pub blocking_aws_secrets : Bool → AwsSecretsOperations M → AwsSecretsOperations M
unfolding block_on
blocking_aws_secrets in_runtime o = record {
  configure_root = λ a. block_on in_runtime (o.configure_root a);
  read_config_root = block_on in_runtime o.read_config_root;
  rotate_root = block_on in_runtime o.rotate_root;
  create_role = λ a b. block_on in_runtime (o.create_role a b);
  read_role = λ a. block_on in_runtime (o.read_role a);
  delete_role = λ a. block_on in_runtime (o.delete_role a);
  list_roles = block_on in_runtime o.list_roles;
  get_credentials = λ a. block_on in_runtime (o.get_credentials a);
  get_sts_credentials = λ a b. block_on in_runtime (o.get_sts_credentials a b);
}
