-- ===== src/Engines/Cubbyhole.antt =====
-- api/cubbyhole.rs: the Cubbyhole handler.
use vault_client_rs.Prelude.{none, some, List}
use vault_client_rs.Prelude.Text.{Text}
use vault_client_rs.Json.{Json}
use vault_client_rs.Client.{VaultClient}
use vault_client_rs.Effect.{Env, get, post, Method, World, M}
use vault_client_rs.Execute.{exec_with_data, exec_empty, exec_list}
use vault_client_rs.Wire.{Decode, named}

module _ (env : Env) (waiting : World → World) (c : VaultClient) (mount : Text) where
  unfoldable pub read : {T : Type 0} → Decode T → Text → M T
  read decode path = exec_with_data env waiting c decode get (named mount "/" path) none

  unfoldable pub write : Text → Json → M (Unit {0})
  write path value = exec_empty env waiting c post (named mount "/" path) (some value)

  unfoldable pub delete : Text → M (Unit {0})
  delete path = exec_empty env waiting c Method.delete (named mount "/" path) none

  unfoldable pub list : Text → M (List Text)
  list path = exec_list env waiting c (named mount "/" path)
