-- ===== src/Engines/Azure.antt =====
-- api/azure.rs, types/azure.rs: the Azure handler, and its types.
use vault_client_rs.Prelude.{ℕ, Option, none, some, List}
use vault_client_rs.Prelude.Text.{Text, codes}
use vault_client_rs.Json.{Json, string, object, end}
use vault_client_rs.Client.{VaultClient}
use vault_client_rs.Effect.{Env, get, post, Method, World, M}
use vault_client_rs.Execute.{exec_with_data, exec_empty, exec_list}
use vault_client_rs.Wire.{Decode, below, named, unless_none, json_itself}

pub record AzureConfigRequest : Type 0 where
  pub subscription_id : Option Text
  pub tenant_id : Option Text
  pub client_id : Option Text
  pub client_secret : Option Text
  pub environment : Option Text

unfoldable pub azure_config_request_body : AzureConfigRequest → Json
azure_config_request_body p = object (
    unless_none string (codes "subscription_id") p.subscription_id (
      unless_none string (codes "tenant_id") p.tenant_id (
        unless_none string (codes "client_id") p.client_id (
          unless_none string (codes "client_secret") p.client_secret
            (unless_none string (codes "environment") p.environment end)))))

pub record AzureConfig : Type 0 where
  pub subscription_id : Text
  pub tenant_id : Text
  pub client_id : Text
  pub environment : Text

pub record AzureRoleRequest : Type 0 where
  pub azure_roles : Option Json
  pub azure_groups : Option Json
  pub application_object_id : Option Text
  pub ttl : Option Text
  pub max_ttl : Option Text

unfoldable pub azure_role_request_body : AzureRoleRequest → Json
azure_role_request_body p = object (
    unless_none json_itself (codes "azure_roles") p.azure_roles (
      unless_none json_itself (codes "azure_groups") p.azure_groups (
        unless_none string (codes "application_object_id") p.application_object_id (
          unless_none string (codes "ttl") p.ttl
            (unless_none string (codes "max_ttl") p.max_ttl end)))))

pub record AzureRole : Type 0 where
  pub azure_roles : Json
  pub azure_groups : Json
  pub application_object_id : Text
  pub ttl : ℕ
  pub max_ttl : ℕ

pub record AzureCredentials : Type 0 where
  pub client_id : Text
  pub client_secret : Text

module _ (env : Env) (waiting : World → World) (c : VaultClient) (mount : Text) where
  unfoldable pub configure : AzureConfigRequest → M (Unit {0})
  configure params =
      exec_empty env waiting c post (below mount "/config")
        (some (azure_config_request_body params))

  unfoldable pub read_config : Decode AzureConfig → M AzureConfig
  read_config decode = exec_with_data env waiting c decode get (below mount "/config") none

  unfoldable pub delete_config : M (Unit {0})
  delete_config = exec_empty env waiting c Method.delete (below mount "/config") none

  unfoldable pub create_role : Text → AzureRoleRequest → M (Unit {0})
  create_role name params =
      exec_empty env waiting c post (named mount "/roles/" name)
        (some (azure_role_request_body params))

  unfoldable pub read_role : Decode AzureRole → Text → M AzureRole
  read_role decode name = exec_with_data env waiting c decode get (named mount "/roles/" name) none

  unfoldable pub delete_role : Text → M (Unit {0})
  delete_role name = exec_empty env waiting c Method.delete (named mount "/roles/" name) none

  unfoldable pub list_roles : M (List Text)
  list_roles = exec_list env waiting c (below mount "/roles")

  unfoldable pub get_credentials : Decode AzureCredentials → Text → M AzureCredentials
  get_credentials decode role =
      exec_with_data env waiting c decode get (named mount "/creds/" role) none
