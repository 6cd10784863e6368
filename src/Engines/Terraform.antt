-- ===== src/Engines/Terraform.antt =====
-- api/terraform.rs, types/terraform.rs: the Terraform handler, and its types.
use vault_client_rs.Prelude.{ℕ, Option, none, some, List}
use vault_client_rs.Prelude.Text.{Text, codes}
use vault_client_rs.Json.{Json, string, object, end, field}
use vault_client_rs.Client.{VaultClient}
use vault_client_rs.Effect.{Env, get, post, Method, World, M}
use vault_client_rs.Execute.{exec_with_data, exec_empty, exec_list}
use vault_client_rs.Wire.{Decode, below, named, unless_none}

pub record TerraformCloudConfigRequest : Type 0 where
  pub token : Text
  pub address : Option Text

unfoldable pub terraform_cloud_config_request_body : TerraformCloudConfigRequest → Json
terraform_cloud_config_request_body p =
    object
      (field (codes "token") (string p.token) (unless_none string (codes "address") p.address end))

pub record TerraformCloudConfig : Type 0 where
  pub address : Text

pub record TerraformCloudRoleRequest : Type 0 where
  pub organization : Option Text
  pub team_id : Option Text
  pub user_id : Option Text
  pub ttl : Option Text
  pub max_ttl : Option Text

unfoldable pub terraform_cloud_role_request_body : TerraformCloudRoleRequest → Json
terraform_cloud_role_request_body p = object (
    unless_none string (codes "organization") p.organization (
      unless_none string (codes "team_id") p.team_id (
        unless_none string (codes "user_id") p.user_id (
          unless_none string (codes "ttl") p.ttl
            (unless_none string (codes "max_ttl") p.max_ttl end)))))

pub record TerraformCloudRole : Type 0 where
  pub organization : Text
  pub team_id : Text
  pub user_id : Text
  pub ttl : ℕ
  pub max_ttl : ℕ

pub record TerraformCloudToken : Type 0 where
  pub token : Text
  pub token_id : Text

module _ (env : Env) (waiting : World → World) (c : VaultClient) (mount : Text) where
  unfoldable pub configure : TerraformCloudConfigRequest → M (Unit {0})
  configure params =
      exec_empty env waiting c post (below mount "/config")
        (some (terraform_cloud_config_request_body params))

  unfoldable pub read_config : Decode TerraformCloudConfig → M TerraformCloudConfig
  read_config decode = exec_with_data env waiting c decode get (below mount "/config") none

  unfoldable pub delete_config : M (Unit {0})
  delete_config = exec_empty env waiting c Method.delete (below mount "/config") none

  unfoldable pub create_role : Text → TerraformCloudRoleRequest → M (Unit {0})
  create_role name params =
      exec_empty env waiting c post (named mount "/role/" name)
        (some (terraform_cloud_role_request_body params))

  unfoldable pub read_role : Decode TerraformCloudRole → Text → M TerraformCloudRole
  read_role decode name = exec_with_data env waiting c decode get (named mount "/role/" name) none

  unfoldable pub delete_role : Text → M (Unit {0})
  delete_role name = exec_empty env waiting c Method.delete (named mount "/role/" name) none

  unfoldable pub list_roles : M (List Text)
  list_roles = exec_list env waiting c (below mount "/role")

  unfoldable pub get_credentials : Decode TerraformCloudToken → Text → M TerraformCloudToken
  get_credentials decode role =
      exec_with_data env waiting c decode get (named mount "/creds/" role) none
