-- ===== src/Execute/Generic.antt =====
-- client/async_client.rs: the operations on arbitrary paths.
use vault_client_rs.Prelude.{none, some, List, ◌⊎◌}
use vault_client_rs.Prelude.Text.{Text}
use vault_client_rs.Json.{Json}
use vault_client_rs.VaultError.{VaultError, ReqwestError}
use vault_client_rs.VaultResponse.{VaultResponse}
use vault_client_rs.Client.{VaultClient}
use vault_client_rs.Effect.{Env, get, post, Response, World, M, ◌>>=◌}
use vault_client_rs.Effect.Method.{delete}
use vault_client_rs.Execute.{exec_with_data, exec_with_auth, exec_empty, exec_list}
use vault_client_rs.Kv.{to_body}

module _ (env : Env) (waiting : World → World) (c : VaultClient) where
  unfoldable pub read : {T : Type 0} → (Response → ReqwestError ⊎ VaultResponse T) → Text → M T
  unfolding exec_with_data
  read deserialize path = exec_with_data env waiting c deserialize get path none

  unfoldable pub read_raw : Text → M (VaultResponse Json)
  unfolding exec_with_auth
  read_raw path = exec_with_auth env waiting c env.json_value get path none

  unfoldable pub write :
      {T : Type 0}
      → (Response → ReqwestError ⊎ VaultResponse T)
      → Text
      → VaultError ⊎ Json
      → M (VaultResponse T)
  unfolding exec_with_auth
  write deserialize path value w =
      (do body ← to_body value; exec_with_auth env waiting c deserialize post path (some body)) w

  unfoldable pub delete_at : Text → M (Unit {0})
  unfolding exec_empty
  delete_at path = exec_empty env waiting c delete path none

  unfoldable pub list : Text → M (List Text)
  unfolding exec_list
  list path = exec_list env waiting c path
