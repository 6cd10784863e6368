-- ===== src/Operations/TerraformCloud.antt =====
-- api/traits.rs: `TerraformCloudOperations`, and its blocking form.
use vault_client_rs.Prelude.{Bool, List}
use vault_client_rs.Prelude.Text.{Text}
use vault_client_rs.Client.{VaultClient}
use vault_client_rs.Effect.{Env, World, M}
use vault_client_rs.Wire.{Decode}
use vault_client_rs.Operations.{block_on}
use vault_client_rs.Engines.Terraform
use vault_client_rs.Engines.Terraform.{
  TerraformCloudConfigRequest, TerraformCloudConfig, TerraformCloudRoleRequest, TerraformCloudRole,
  TerraformCloudToken,
}

pub record TerraformCloudOperations (F : Type 0 → Type 0) : Type 0 where
  pub configure : TerraformCloudConfigRequest → F (Unit {0})
  pub read_config : F TerraformCloudConfig
  pub delete_config : F (Unit {0})
  pub create_role : Text → TerraformCloudRoleRequest → F (Unit {0})
  pub read_role : Text → F TerraformCloudRole
  pub delete_role : Text → F (Unit {0})
  pub list_roles : F (List Text)
  pub get_credentials : Text → F TerraformCloudToken

-- The implementation by the handler, with the decoders of the responses.
unfoldable pub terraform_cloud_handler :
    (env : Env) (waiting : World → World) (c : VaultClient) (mount : Text)
    (read_terraform_cloud_config : Decode TerraformCloudConfig)
    (read_terraform_cloud_role : Decode TerraformCloudRole)
    (read_terraform_cloud_token : Decode TerraformCloudToken)
    → TerraformCloudOperations M
terraform_cloud_handler env waiting c mount read_terraform_cloud_config read_terraform_cloud_role
      read_terraform_cloud_token =
    record {
      configure = Terraform.configure env waiting c mount;
      read_config = Terraform.read_config env waiting c mount read_terraform_cloud_config;
      delete_config = Terraform.delete_config env waiting c mount;
      create_role = Terraform.create_role env waiting c mount;
      read_role = Terraform.read_role env waiting c mount read_terraform_cloud_role;
      delete_role = Terraform.delete_role env waiting c mount;
      list_roles = Terraform.list_roles env waiting c mount;
      get_credentials = Terraform.get_credentials env waiting c mount read_terraform_cloud_token;
    }

-- `TerraformCloudHandler` of blocking/mod.rs.
unfoldable pub blocking_terraform_cloud :
    Bool → TerraformCloudOperations M → TerraformCloudOperations M
unfolding block_on
blocking_terraform_cloud in_runtime o = record {
  configure = λ a. block_on in_runtime (o.configure a);
  read_config = block_on in_runtime o.read_config;
  delete_config = block_on in_runtime o.delete_config;
  create_role = λ a b. block_on in_runtime (o.create_role a b);
  read_role = λ a. block_on in_runtime (o.read_role a);
  delete_role = λ a. block_on in_runtime (o.delete_role a);
  list_roles = block_on in_runtime o.list_roles;
  get_credentials = λ a. block_on in_runtime (o.get_credentials a);
}
