-- ===== src/AuthAdmin/Azure.antt =====
-- api/auth/azure.rs, types/azure.rs: the Azure auth handler, less its login, and its types.
use vault_client_rs.Prelude.{ℕ, Option, none, some, List, ◌++◌}
use vault_client_rs.Prelude.Text.{Text, codes}
use vault_client_rs.Json.{Json, string, object, end, field}
use vault_client_rs.EncodePath.{encode_path}
use vault_client_rs.Client.{VaultClient}
use vault_client_rs.Effect.{Env, get, post, Method, World, M}
use vault_client_rs.Execute.{exec_with_data, exec_empty, exec_list}
use vault_client_rs.Wire.{Decode, unless_none, array_of}

pub record AzureAuthConfigRequest : Type 0 where
  pub tenant_id : Option Text
  pub resource : Option Text
  pub environment : Option Text
  pub client_id : Option Text
  pub client_secret : Option Text

unfoldable pub azure_auth_config_request_body : AzureAuthConfigRequest → Json
azure_auth_config_request_body p = object (
    unless_none string (codes "tenant_id") p.tenant_id (
      unless_none string (codes "resource") p.resource (
        unless_none string (codes "environment") p.environment (
          unless_none string (codes "client_id") p.client_id
            (unless_none string (codes "client_secret") p.client_secret end)))))

pub record AzureAuthConfig : Type 0 where
  pub tenant_id : Text
  pub resource : Text
  pub environment : Text
  pub client_id : Text

pub record AzureAuthRoleRequest : Type 0 where
  pub bound_service_principal_ids : Option (List Text)
  pub bound_group_ids : Option (List Text)
  pub bound_locations : Option (List Text)
  pub bound_subscription_ids : Option (List Text)
  pub bound_resource_groups : Option (List Text)
  pub bound_scale_sets : Option (List Text)
  pub token_ttl : Option Text
  pub token_max_ttl : Option Text
  pub token_policies : Option (List Text)

unfoldable pub azure_auth_role_request_body : AzureAuthRoleRequest → Json
azure_auth_role_request_body p = object (
    unless_none (array_of string) (codes "bound_service_principal_ids")
      p.bound_service_principal_ids
      (unless_none (array_of string) (codes "bound_group_ids") p.bound_group_ids (
        unless_none (array_of string) (codes "bound_locations") p.bound_locations (
          unless_none (array_of string) (codes "bound_subscription_ids") p.bound_subscription_ids (
            unless_none (array_of string) (codes "bound_resource_groups") p.bound_resource_groups (
              unless_none (array_of string) (codes "bound_scale_sets") p.bound_scale_sets (
                unless_none string (codes "token_ttl") p.token_ttl (
                  unless_none string (codes "token_max_ttl") p.token_max_ttl (
                    unless_none (array_of string) (codes "token_policies") p.token_policies
                      end)))))))))

pub record AzureAuthRoleInfo : Type 0 where
  pub bound_service_principal_ids : List Text
  pub bound_group_ids : List Text
  pub bound_locations : List Text
  pub bound_subscription_ids : List Text
  pub bound_resource_groups : List Text
  pub token_ttl : ℕ
  pub token_max_ttl : ℕ
  pub token_policies : List Text

pub record AzureAuthLoginRequest : Type 0 where
  pub role : Text
  pub jwt : Text
  pub subscription_id : Option Text
  pub resource_group_name : Option Text
  pub vm_name : Option Text
  pub vmss_name : Option Text

unfoldable pub azure_auth_login_request_body : AzureAuthLoginRequest → Json
azure_auth_login_request_body p = object (
    field (codes "role") (string p.role) (
      field (codes "jwt") (string p.jwt) (
        unless_none string (codes "subscription_id") p.subscription_id (
          unless_none string (codes "resource_group_name") p.resource_group_name (
            unless_none string (codes "vm_name") p.vm_name
              (unless_none string (codes "vmss_name") p.vmss_name end))))))

module _ (env : Env) (waiting : World → World) (c : VaultClient) (mount : Text) where
  unfoldable pub configure : AzureAuthConfigRequest → M (Unit {0})
  configure cfg =
      exec_empty env waiting c post (codes "auth/" ++ (mount ++ codes "/config"))
        (some (azure_auth_config_request_body cfg))

  unfoldable pub read_config : Decode AzureAuthConfig → M AzureAuthConfig
  read_config decode =
      exec_with_data env waiting c decode get (codes "auth/" ++ (mount ++ codes "/config")) none

  unfoldable pub create_role : Text → AzureAuthRoleRequest → M (Unit {0})
  create_role name params =
      exec_empty env waiting c post
        (codes "auth/" ++ (mount ++ (codes "/role/" ++ encode_path name)))
        (some (azure_auth_role_request_body params))

  unfoldable pub read_role : Decode AzureAuthRoleInfo → Text → M AzureAuthRoleInfo
  read_role decode name =
      exec_with_data env waiting c decode get
        (codes "auth/" ++ (mount ++ (codes "/role/" ++ encode_path name))) none

  unfoldable pub delete_role : Text → M (Unit {0})
  delete_role name =
      exec_empty env waiting c Method.delete
        (codes "auth/" ++ (mount ++ (codes "/role/" ++ encode_path name))) none

  unfoldable pub list_roles : M (List Text)
  list_roles = exec_list env waiting c (codes "auth/" ++ (mount ++ codes "/role"))
