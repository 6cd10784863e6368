-- ===== src/Kv/V1.antt =====
-- api/kv1.rs: the handler of a KV version 1 mount. The mount is as the accessor stores it, encoded.
use vault_client_rs.Prelude.{none, some, List, ◌++◌, ◌⊎◌}
use vault_client_rs.Prelude.Text.{Text, codes}
use vault_client_rs.Json.{Json}
use vault_client_rs.VaultError.{VaultError, ReqwestError}
use vault_client_rs.VaultResponse.{VaultResponse}
use vault_client_rs.EncodePath.{encode_path}
use vault_client_rs.Client.{VaultClient}
use vault_client_rs.Effect.{Env, get, post, Method, Response, World, M, ◌>>=◌}
use vault_client_rs.Execute.{exec_with_data, exec_empty, exec_list}
use vault_client_rs.Kv.{HashMap, to_body, field_of}

-- `format!("{}/{}", self.mount, encode_path(path))`.
unfoldable pub secret_url : Text → Text → Text
secret_url mount path = mount ++ (codes "/" ++ encode_path path)

module _ (env : Env) (waiting : World → World) (c : VaultClient) (mount : Text) where
  -- `Kv1Operations::read`, and `read_data` and `read_string_data`, which call it.
  unfoldable pub read :
      {T : Type 0} (deserialize : Response → ReqwestError ⊎ VaultResponse T) → Text → M T
  read deserialize path = exec_with_data env waiting c deserialize get (secret_url mount path) none

  -- `Kv1Operations::write`.
  unfoldable pub write_value : Text → Json → M (Unit {0})
  write_value path value = exec_empty env waiting c post (secret_url mount path) (some value)

  unfoldable pub write : Text → VaultError ⊎ Json → M (Unit {0})
  write path value w = (do body ← to_body value; write_value path body) w

  unfoldable pub delete : Text → M (Unit {0})
  delete path = exec_empty env waiting c Method.delete (secret_url mount path) none

  unfoldable pub list : Text → M (List Text)
  list path = exec_list env waiting c (secret_url mount path)

  module _ (to_string : Json → Text)
      (json_map : Response → ReqwestError ⊎ VaultResponse (HashMap Json)) where
    unfoldable pub read_field : Text → Text → M Text
    read_field path name w =
        (do fields ← read json_map path; field_of to_string mount path name fields) w
