-- ===== src/AuthAdmin/Kubernetes.antt =====
-- api/auth/kubernetes.rs, types/auth.rs: the Kubernetes auth handler, less its login, and its types.
use vault_client_rs.Prelude.{ℕ, Bool, Option, none, some, List, ◌++◌}
use vault_client_rs.Prelude.Text.{Text, codes}
use vault_client_rs.Json.{Json, string, bool, object, end, field}
use vault_client_rs.EncodePath.{encode_path}
use vault_client_rs.Client.{VaultClient}
use vault_client_rs.Effect.{Env, get, post, Method, World, M}
use vault_client_rs.Execute.{exec_with_data, exec_empty, exec_list}
use vault_client_rs.Wire.{Decode, unless_none, array_of}

pub record K8sAuthRoleInfo : Type 0 where
  pub bound_service_account_names : List Text
  pub bound_service_account_namespaces : List Text
  pub token_policies : List Text
  pub token_ttl : ℕ
  pub token_max_ttl : ℕ
  pub token_type : Text

pub record K8sAuthConfigRequest : Type 0 where
  pub kubernetes_host : Text
  pub kubernetes_ca_cert : Option Text
  pub token_reviewer_jwt : Option Text
  pub disable_local_ca_jwt : Option Bool

unfoldable pub k8s_auth_config_request_body : K8sAuthConfigRequest → Json
k8s_auth_config_request_body p = object (
    field (codes "kubernetes_host") (string p.kubernetes_host) (
      unless_none string (codes "kubernetes_ca_cert") p.kubernetes_ca_cert (
        unless_none string (codes "token_reviewer_jwt") p.token_reviewer_jwt
          (unless_none bool (codes "disable_local_ca_jwt") p.disable_local_ca_jwt end))))

pub record K8sAuthRoleRequest : Type 0 where
  pub bound_service_account_names : List Text
  pub bound_service_account_namespaces : List Text
  pub token_policies : Option (List Text)
  pub token_ttl : Option Text
  pub token_max_ttl : Option Text

unfoldable pub k8s_auth_role_request_body : K8sAuthRoleRequest → Json
k8s_auth_role_request_body p = object (
    field (codes "bound_service_account_names") (array_of string p.bound_service_account_names) (
      field (codes "bound_service_account_namespaces")
        (array_of string p.bound_service_account_namespaces)
        (unless_none (array_of string) (codes "token_policies") p.token_policies (
          unless_none string (codes "token_ttl") p.token_ttl
            (unless_none string (codes "token_max_ttl") p.token_max_ttl end)))))

module _ (env : Env) (waiting : World → World) (c : VaultClient) (mount : Text) where
  unfoldable pub configure : K8sAuthConfigRequest → M (Unit {0})
  configure cfg =
      exec_empty env waiting c post (codes "auth/" ++ (mount ++ codes "/config"))
        (some (k8s_auth_config_request_body cfg))

  unfoldable pub create_role : Text → K8sAuthRoleRequest → M (Unit {0})
  create_role name params =
      exec_empty env waiting c post
        (codes "auth/" ++ (mount ++ (codes "/role/" ++ encode_path name)))
        (some (k8s_auth_role_request_body params))

  unfoldable pub read_role : Decode K8sAuthRoleInfo → Text → M K8sAuthRoleInfo
  read_role decode name =
      exec_with_data env waiting c decode get
        (codes "auth/" ++ (mount ++ (codes "/role/" ++ encode_path name))) none

  unfoldable pub delete_role : Text → M (Unit {0})
  delete_role name =
      exec_empty env waiting c Method.delete
        (codes "auth/" ++ (mount ++ (codes "/role/" ++ encode_path name))) none

  unfoldable pub list_roles : M (List Text)
  list_roles = exec_list env waiting c (codes "auth/" ++ (mount ++ codes "/role"))
