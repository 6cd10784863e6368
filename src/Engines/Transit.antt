-- ===== src/Engines/Transit.antt =====
-- api/transit.rs: the Transit handler.
pub mod Types
pub mod Crypto
use vault_client_rs.Prelude.{ℕ, Option, none, some, List, ◌++◌}
use vault_client_rs.Prelude.Text.{Text, codes}
use vault_client_rs.Json.{object, end, field}
use vault_client_rs.EncodePath.{encode_path}
use vault_client_rs.Client.{VaultClient}
use vault_client_rs.Effect.{Env, get, post, Method, World, M, pure, ◌>>=◌}
use vault_client_rs.Execute.{exec_with_data, exec_empty, exec_list}
use vault_client_rs.Wire.{Decode, below, named, named_under, u64_json, decimal, member}
use vault_client_rs.Engines.Transit.Types.{
  TransitKeyParams, transit_key_params_body, TransitKeyInfo, TransitKeyConfig,
  transit_key_config_body, TransitExportedKey, TransitCacheConfig, TransitBackupResponse,
}

module _ (env : Env) (waiting : World → World) (c : VaultClient) (mount : Text) where
  unfoldable pub create_key : Text → TransitKeyParams → M (Unit {0})
  create_key name params =
      exec_empty env waiting c post (named mount "/keys/" name)
        (some (transit_key_params_body params))

  unfoldable pub read_key : Decode TransitKeyInfo → Text → M TransitKeyInfo
  read_key decode name = exec_with_data env waiting c decode get (named mount "/keys/" name) none

  unfoldable pub list_keys : M (List Text)
  list_keys = exec_list env waiting c (below mount "/keys")

  unfoldable pub delete_key : Text → M (Unit {0})
  delete_key name = exec_empty env waiting c Method.delete (named mount "/keys/" name) none

  unfoldable pub update_key_config : Text → TransitKeyConfig → M (Unit {0})
  update_key_config name cfg =
      exec_empty env waiting c post (named_under mount "/keys/" name "/config")
        (some (transit_key_config_body cfg))

  unfoldable pub rotate_key : Text → M (Unit {0})
  rotate_key name = exec_empty env waiting c post (named_under mount "/keys/" name "/rotate") none

  unfoldable export_path : Text → Text → Option ℕ → Text
  unfolding decimal
  export_path name key_type none =
      mount ++ (codes "/export/" ++ (encode_path key_type ++ (codes "/" ++ encode_path name)))
  export_path name key_type (some v) =
      mount
      ++ (codes "/export/"
          ++ (encode_path key_type
              ++ (codes "/" ++ (encode_path name ++ (codes "/" ++ decimal v)))))

  unfoldable pub export_key :
      Decode TransitExportedKey → Text → Text → Option ℕ → M TransitExportedKey
  unfolding export_path
  export_key decode name key_type version =
      exec_with_data env waiting c decode get (export_path name key_type version) none

  unfoldable pub trim_key : Text → ℕ → M (Unit {0})
  trim_key name min_version =
      exec_empty env waiting c post (named_under mount "/keys/" name "/trim")
        (some (object (field (codes "min_available_version") (u64_json min_version) end)))

  unfoldable pub backup_key : Decode TransitBackupResponse → Text → M Text
  backup_key decode name w =
      (do
        resp ← exec_with_data env waiting c decode get (named mount "/backup/" name) none
        pure resp.backup)
        w

  unfoldable pub restore_key : Text → Text → M (Unit {0})
  restore_key name backup =
      exec_empty env waiting c post (named mount "/restore/" name)
        (some (object (member "backup" backup end)))

  unfoldable pub read_cache_config : Decode TransitCacheConfig → M TransitCacheConfig
  read_cache_config decode =
      exec_with_data env waiting c decode get (below mount "/cache-config") none

  unfoldable pub write_cache_config : ℕ → M (Unit {0})
  write_cache_config size =
      exec_empty env waiting c post (below mount "/cache-config")
        (some (object (field (codes "size") (u64_json size) end)))
