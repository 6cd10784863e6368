-- ===== src/AuthAdmin/Gcp.antt =====
-- api/auth/gcp.rs, types/gcp.rs: the Gcp auth handler, less its login, and its types.
use vault_client_rs.Prelude.{ℕ, Option, none, some, List, ◌++◌}
use vault_client_rs.Prelude.Text.{Text, codes}
use vault_client_rs.Json.{Json, string, object, end, field}
use vault_client_rs.EncodePath.{encode_path}
use vault_client_rs.Client.{VaultClient}
use vault_client_rs.Effect.{Env, get, post, Method, World, M}
use vault_client_rs.Execute.{exec_with_data, exec_empty, exec_list}
use vault_client_rs.Wire.{Decode, unless_none, array_of, json_itself}

pub record GcpAuthConfigRequest : Type 0 where
  pub credentials : Option Text
  pub iam_alias : Option Text
  pub gce_alias : Option Text

unfoldable pub gcp_auth_config_request_body : GcpAuthConfigRequest → Json
gcp_auth_config_request_body p = object (
    unless_none string (codes "credentials") p.credentials (
      unless_none string (codes "iam_alias") p.iam_alias
        (unless_none string (codes "gce_alias") p.gce_alias end)))

pub record GcpAuthConfig : Type 0 where
  pub iam_alias : Text
  pub gce_alias : Text

pub record GcpAuthRoleRequest : Type 0 where
  pub role_type : Text
  pub bound_service_accounts : Option (List Text)
  pub bound_projects : Option (List Text)
  pub bound_zones : Option (List Text)
  pub bound_regions : Option (List Text)
  pub bound_instance_groups : Option (List Text)
  pub bound_labels : Option Json
  pub token_ttl : Option Text
  pub token_max_ttl : Option Text
  pub token_policies : Option (List Text)

unfoldable pub gcp_auth_role_request_body : GcpAuthRoleRequest → Json
gcp_auth_role_request_body p = object (
    field (codes "type") (string p.role_type) (
      unless_none (array_of string) (codes "bound_service_accounts") p.bound_service_accounts (
        unless_none (array_of string) (codes "bound_projects") p.bound_projects (
          unless_none (array_of string) (codes "bound_zones") p.bound_zones (
            unless_none (array_of string) (codes "bound_regions") p.bound_regions (
              unless_none (array_of string) (codes "bound_instance_groups") p.bound_instance_groups
                (unless_none json_itself (codes "bound_labels") p.bound_labels (
                  unless_none string (codes "token_ttl") p.token_ttl (
                    unless_none string (codes "token_max_ttl") p.token_max_ttl (
                      unless_none (array_of string) (codes "token_policies") p.token_policies
                        end))))))))))

pub record GcpAuthRoleInfo : Type 0 where
  pub role_type : Text
  pub bound_service_accounts : List Text
  pub bound_projects : List Text
  pub bound_zones : List Text
  pub bound_regions : List Text
  pub token_ttl : ℕ
  pub token_max_ttl : ℕ
  pub token_policies : List Text

module _ (env : Env) (waiting : World → World) (c : VaultClient) (mount : Text) where
  unfoldable pub configure : GcpAuthConfigRequest → M (Unit {0})
  configure cfg =
      exec_empty env waiting c post (codes "auth/" ++ (mount ++ codes "/config"))
        (some (gcp_auth_config_request_body cfg))

  unfoldable pub read_config : Decode GcpAuthConfig → M GcpAuthConfig
  read_config decode =
      exec_with_data env waiting c decode get (codes "auth/" ++ (mount ++ codes "/config")) none

  unfoldable pub create_role : Text → GcpAuthRoleRequest → M (Unit {0})
  create_role name params =
      exec_empty env waiting c post
        (codes "auth/" ++ (mount ++ (codes "/role/" ++ encode_path name)))
        (some (gcp_auth_role_request_body params))

  unfoldable pub read_role : Decode GcpAuthRoleInfo → Text → M GcpAuthRoleInfo
  read_role decode name =
      exec_with_data env waiting c decode get
        (codes "auth/" ++ (mount ++ (codes "/role/" ++ encode_path name))) none

  unfoldable pub delete_role : Text → M (Unit {0})
  delete_role name =
      exec_empty env waiting c Method.delete
        (codes "auth/" ++ (mount ++ (codes "/role/" ++ encode_path name))) none

  unfoldable pub list_roles : M (List Text)
  list_roles = exec_list env waiting c (codes "auth/" ++ (mount ++ codes "/role"))
