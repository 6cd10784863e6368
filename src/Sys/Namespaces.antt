-- ===== src/Sys/Namespaces.antt =====
-- api/sys/namespaces.rs, types/sys.rs: the Namespaces endpoints of the system backend, and its types.
use vault_client_rs.Prelude.{none, List, ◌++◌}
use vault_client_rs.Prelude.Text.{Text, codes}
use vault_client_rs.EncodePath.{encode_path}
use vault_client_rs.Client.{VaultClient}
use vault_client_rs.Effect.{Env, post, Method, World, M}
use vault_client_rs.Execute.{exec_with_data, exec_empty, exec_list}
use vault_client_rs.Wire.{Decode}

pub record NamespaceInfo : Type 0 where
  pub id : Text
  pub path : Text

module _ (env : Env) (waiting : World → World) (c : VaultClient) where
  unfoldable pub list_namespaces : M (List Text)
  list_namespaces = exec_list env waiting c (codes "sys/namespaces")

  unfoldable pub create_namespace : Decode NamespaceInfo → Text → M NamespaceInfo
  create_namespace decode path =
      exec_with_data env waiting c decode post (codes "sys/namespaces/" ++ encode_path path) none

  unfoldable pub delete_namespace : Text → M (Unit {0})
  delete_namespace path =
      exec_empty env waiting c Method.delete (codes "sys/namespaces/" ++ encode_path path) none
