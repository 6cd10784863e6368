-- ===== src/Kv/V2.antt =====
-- api/kv2.rs: the handler of a KV version 2 mount. The mount is as the accessor stores it, encoded.
pub mod Endpoints
pub mod Traversal
use vault_client_rs.Prelude.{ℕ, Option, none, some, List, [], ◌∷◌, ◌++◌, ◌⊎◌}
use vault_client_rs.Prelude.Text.{Text, codes}
use vault_client_rs.Json.{Json, Items, nil, cons, string, array, object, end, field}
use vault_client_rs.VaultError.{VaultError, ReqwestError}
use vault_client_rs.VaultResponse.{VaultResponse}
use vault_client_rs.EncodePath.{encode_path}
use vault_client_rs.Client.{VaultClient}
use vault_client_rs.Effect.{Env, get, post, Method, Response, World, M, pure, ◌>>=◌}
use vault_client_rs.Execute.{exec_with_data, exec_patch, exec_empty, exec_list}
use vault_client_rs.Kv.{
  HashMap, KvMetadata, KvReadResponse, KvFullMetadata, KvMetadataParams, KvConfig, u64_json,
  params_body, config_body, decimal, to_body, field_of,
}

-- What stands between the mount and the path of a secret.
pub data Endpoint : Type 0 where
  secret_data metadata subkeys deleting undeleting destroying : Endpoint

abbrev pub segment : Endpoint → Text
segment secret_data = codes "data"
segment metadata = codes "metadata"
segment subkeys = codes "subkeys"
segment deleting = codes "delete"
segment undeleting = codes "undelete"
segment destroying = codes "destroy"

-- `format!("{}/data/{}", self.mount, encode_path(path))`, and its like.
unfoldable pub endpoint : Text → Endpoint → Text → Text
endpoint mount e path = mount ++ (codes "/" ++ (segment e ++ (codes "/" ++ encode_path path)))

unfoldable pub version_url : Text → Text → ℕ → Text
unfolding endpoint decimal
version_url mount path version =
    endpoint mount secret_data path ++ (codes "?version=" ++ decimal version)

unfoldable pub subkeys_url : Text → Text → Option ℕ → Text
unfolding endpoint decimal
subkeys_url mount path none = endpoint mount subkeys path
subkeys_url mount path (some d) = endpoint mount subkeys path ++ (codes "?depth=" ++ decimal d)

-- `json!({ "data": data })`.
abbrev pub data_body : Json → Json
data_body value = object (field (codes "data") value end)

abbrev pub cas_body : Json → ℕ → Json
cas_body value cas = object (
    field (codes "options") (object (field (codes "cas") (u64_json cas) end))
      (field (codes "data") value end))

versions_array : List ℕ → Items
versions_array [] = nil
versions_array (v ∷ vs) = cons (u64_json v) (versions_array vs)

module _ (env : Env) (waiting : World → World) (c : VaultClient) (mount : Text) where
  module _ {T : Type 0}
      (deserialize : Response → ReqwestError ⊎ VaultResponse (KvReadResponse T)) where
    unfoldable pub read : Text → M (KvReadResponse T)
    read path = exec_with_data env waiting c deserialize get (endpoint mount secret_data path) none

    -- `read_data`, and `read_string_data`, which calls it.
    unfoldable pub read_data : Text → M T
    unfolding read
    read_data path w = (do r ← read path; pure r.data_field) w

    unfoldable pub read_version : Text → ℕ → M (KvReadResponse T)
    read_version path version =
        exec_with_data env waiting c deserialize get (version_url mount path version) none

  module _ (json_metadata : Response → ReqwestError ⊎ VaultResponse KvMetadata) where
    -- `Kv2Operations::write`, `write_cas` and `patch`.
    unfoldable pub write_value : Text → Json → M KvMetadata
    write_value path value =
        exec_with_data env waiting c json_metadata post (endpoint mount secret_data path)
          (some (data_body value))

    unfoldable pub write_cas_value : Text → Json → ℕ → M KvMetadata
    write_cas_value path value cas =
        exec_with_data env waiting c json_metadata post (endpoint mount secret_data path)
          (some (cas_body value cas))

    unfoldable pub patch_value : Text → Json → M KvMetadata
    patch_value path value =
        exec_patch env waiting c json_metadata (endpoint mount secret_data path) (data_body value)

    unfoldable pub write : Text → VaultError ⊎ Json → M KvMetadata
    unfolding write_value
    write path value w = (do body ← to_body value; write_value path body) w

    unfoldable pub write_cas : Text → VaultError ⊎ Json → ℕ → M KvMetadata
    unfolding write_cas_value
    write_cas path value cas w = (do body ← to_body value; write_cas_value path body cas) w

    unfoldable pub patch : Text → VaultError ⊎ Json → M KvMetadata
    unfolding patch_value
    patch path value w = (do body ← to_body value; patch_value path body) w

    unfoldable pub write_field : Text → Text → Text → M KvMetadata
    unfolding write_value
    write_field path name value = write_value path (object (field name (string value) end))

  unfoldable pub list : Text → M (List Text)
  list path = exec_list env waiting c (endpoint mount metadata path)

  unfoldable pub delete : Text → M (Unit {0})
  delete path = exec_empty env waiting c Method.delete (endpoint mount secret_data path) none

  unfoldable pub version_op : Endpoint → Text → List ℕ → M (Unit {0})
  unfolding versions_array
  version_op op path versions =
      exec_empty env waiting c post (endpoint mount op path)
        (some (object (field (codes "versions") (array (versions_array versions)) end)))

  unfoldable pub delete_versions : Text → List ℕ → M (Unit {0})
  unfolding version_op
  delete_versions = version_op deleting

  unfoldable pub undelete_versions : Text → List ℕ → M (Unit {0})
  unfolding version_op
  undelete_versions = version_op undeleting

  unfoldable pub destroy_versions : Text → List ℕ → M (Unit {0})
  unfolding version_op
  destroy_versions = version_op destroying

  unfoldable pub read_metadata :
      (Response → ReqwestError ⊎ VaultResponse KvFullMetadata) → Text → M KvFullMetadata
  read_metadata deserialize path =
      exec_with_data env waiting c deserialize get (endpoint mount metadata path) none

  unfoldable pub write_metadata : Text → KvMetadataParams → M (Unit {0})
  unfolding params_body
  write_metadata path meta =
      exec_empty env waiting c post (endpoint mount metadata path) (some (params_body meta))

  unfoldable pub patch_metadata : Text → KvMetadataParams → M (Unit {0})
  unfolding params_body
  patch_metadata path meta =
      exec_empty env waiting c Method.patch (endpoint mount metadata path) (some (params_body meta))

  unfoldable pub delete_metadata : Text → M (Unit {0})
  delete_metadata path = exec_empty env waiting c Method.delete (endpoint mount metadata path) none

  unfoldable pub read_subkeys : Text → Option ℕ → M Json
  read_subkeys path depth =
      exec_with_data env waiting c env.json_value get (subkeys_url mount path depth) none

  config_url : Text
  config_url = mount ++ codes "/config"

  unfoldable pub read_config : (Response → ReqwestError ⊎ VaultResponse KvConfig) → M KvConfig
  unfolding config_url
  read_config deserialize = exec_with_data env waiting c deserialize get config_url none

  unfoldable pub write_config : KvConfig → M (Unit {0})
  unfolding config_url config_body
  write_config cfg = exec_empty env waiting c post config_url (some (config_body cfg))

  module _ (to_string : Json → Text)
      (json_map : Response → ReqwestError ⊎ VaultResponse (KvReadResponse (HashMap Json))) where
    unfoldable pub read_field : Text → Text → M Text
    unfolding read_data
    read_field path name w =
        (do fields ← read_data json_map path; field_of to_string mount path name fields) w
