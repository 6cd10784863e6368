-- ===== src/Operations/K8sAuth.antt =====
-- api/traits.rs: `K8sAuthOperations`, and its blocking form.
use vault_client_rs.Prelude.{Bool, List}
use vault_client_rs.Prelude.Text.{Text}
use vault_client_rs.VaultResponse.{AuthInfo}
use vault_client_rs.EncodePath.{encode_path}
use vault_client_rs.Client.{VaultClient}
use vault_client_rs.Effect.{Env, World, M}
use vault_client_rs.Wire.{Decode}
use vault_client_rs.Auth.{jwt_login}
use vault_client_rs.Operations.{block_on}
use vault_client_rs.AuthAdmin.Kubernetes
use vault_client_rs.AuthAdmin.Kubernetes.{K8sAuthRoleInfo, K8sAuthConfigRequest, K8sAuthRoleRequest}

pub record K8sAuthOperations (F : Type 0 → Type 0) : Type 0 where
  pub login : Text → Text → F AuthInfo
  pub configure : K8sAuthConfigRequest → F (Unit {0})
  pub create_role : Text → K8sAuthRoleRequest → F (Unit {0})
  pub read_role : Text → F K8sAuthRoleInfo
  pub delete_role : Text → F (Unit {0})
  pub list_roles : F (List Text)

-- The implementation by the handler, with the decoders of the responses.
unfoldable pub k8s_auth_handler :
    (env : Env) (waiting : World → World) (c : VaultClient) (mount : Text)
    (read_k8s_auth_role_info : Decode K8sAuthRoleInfo)
    → K8sAuthOperations M
k8s_auth_handler env waiting c mount read_k8s_auth_role_info = record {
  login = jwt_login env waiting c mount;
  configure = Kubernetes.configure env waiting c (encode_path mount);
  create_role = Kubernetes.create_role env waiting c (encode_path mount);
  read_role = Kubernetes.read_role env waiting c (encode_path mount) read_k8s_auth_role_info;
  delete_role = Kubernetes.delete_role env waiting c (encode_path mount);
  list_roles = Kubernetes.list_roles env waiting c (encode_path mount);
}

-- `K8sAuthHandler` of blocking/mod.rs.
unfoldable pub blocking_k8s_auth : Bool → K8sAuthOperations M → K8sAuthOperations M
unfolding block_on
blocking_k8s_auth in_runtime o = record {
  login = λ a b. block_on in_runtime (o.login a b);
  configure = λ a. block_on in_runtime (o.configure a);
  create_role = λ a b. block_on in_runtime (o.create_role a b);
  read_role = λ a. block_on in_runtime (o.read_role a);
  delete_role = λ a. block_on in_runtime (o.delete_role a);
  list_roles = block_on in_runtime o.list_roles;
}
