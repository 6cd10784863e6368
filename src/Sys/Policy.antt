-- ===== src/Sys/Policy.antt =====
-- api/sys/policy.rs, types/sys.rs: the Policy endpoints of the system backend, and its types.
use vault_client_rs.Prelude.{none, some, List, ◌++◌}
use vault_client_rs.Prelude.Text.{Text, codes}
use vault_client_rs.Json.{object, end}
use vault_client_rs.EncodePath.{encode_path}
use vault_client_rs.Client.{VaultClient}
use vault_client_rs.Effect.{Env, get, put, Method, World, M}
use vault_client_rs.Execute.{exec_with_data, exec_empty, exec_list}
use vault_client_rs.Wire.{Decode, member}

pub record PolicyInfo : Type 0 where
  pub name : Text
  pub policy : Text

module _ (env : Env) (waiting : World → World) (c : VaultClient) where
  unfoldable pub list_policies : M (List Text)
  list_policies = exec_list env waiting c (codes "sys/policies/acl")

  unfoldable pub read_policy : Decode PolicyInfo → Text → M PolicyInfo
  read_policy decode name =
      exec_with_data env waiting c decode get (codes "sys/policies/acl/" ++ encode_path name) none

  unfoldable pub write_policy : Text → Text → M (Unit {0})
  write_policy name rules =
      exec_empty env waiting c put (codes "sys/policies/acl/" ++ encode_path name)
        (some (object (member "policy" rules end)))

  unfoldable pub delete_policy : Text → M (Unit {0})
  delete_policy name =
      exec_empty env waiting c Method.delete (codes "sys/policies/acl/" ++ encode_path name) none
