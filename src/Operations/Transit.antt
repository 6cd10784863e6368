-- ===== src/Operations/Transit.antt =====
-- api/traits.rs: `TransitOperations`, and its blocking form.
use vault_client_rs.Prelude.{ℕ, Bool, Option, List, ◌⊎◌}
use vault_client_rs.Prelude.Text.{Text}
use vault_client_rs.Client.{VaultClient}
use vault_client_rs.Effect.{Env, World, M}
use vault_client_rs.Wire.{Decode}
use vault_client_rs.Operations.{block_on}
use vault_client_rs.Engines.Transit
use vault_client_rs.Engines.Transit.Crypto
use vault_client_rs.Engines.Transit.Types.{
  TransitKeyParams, TransitKeyInfo, TransitKeyConfig, TransitEncryptResponse,
  TransitDecryptResponse, TransitRewrapResponse, TransitBatchPlaintext, TransitBatchCiphertext,
  TransitSignParams, TransitSignResponse, TransitVerifyResponse, TransitHashResponse,
  TransitHmacResponse, TransitRandomResponse, TransitDataKey, TransitExportedKey,
  TransitCacheConfig, TransitBatchEncryptResponse, TransitBatchDecryptItem,
  TransitBatchDecryptResponse, TransitBackupResponse, TransitBatchSignInput, TransitBatchSignResult,
  TransitBatchVerifyInput, TransitBatchVerifyResult, TransitBatchSignResponse,
  TransitBatchVerifyResponse,
}

pub record TransitOperations (F : Type 0 → Type 0) : Type 0 where
  pub create_key : Text → TransitKeyParams → F (Unit {0})
  pub read_key : Text → F TransitKeyInfo
  pub list_keys : F (List Text)
  pub delete_key : Text → F (Unit {0})
  pub update_key_config : Text → TransitKeyConfig → F (Unit {0})
  pub rotate_key : Text → F (Unit {0})
  pub export_key : Text → Text → Option ℕ → F TransitExportedKey
  pub encrypt : Text → Text → F Text
  pub decrypt : Text → Text → F Text
  pub rewrap : Text → Text → F Text
  pub batch_encrypt : Text → List TransitBatchPlaintext → F (List TransitBatchCiphertext)
  pub batch_decrypt : Text → List TransitBatchCiphertext → F (List TransitBatchDecryptItem)
  pub sign : Text → Text → TransitSignParams → F Text
  pub verify : Text → Text → Text → F Bool
  pub batch_sign :
      Text → List TransitBatchSignInput → TransitSignParams → F (List TransitBatchSignResult)
  pub batch_verify : Text → List TransitBatchVerifyInput → F (List TransitBatchVerifyResult)
  pub hash : Text → Text → F Text
  pub hmac : Text → Text → Text → F Text
  pub random : ℕ → Text → F Text
  pub generate_data_key : Text → Text → F TransitDataKey
  pub trim_key : Text → ℕ → F (Unit {0})
  pub backup_key : Text → F Text
  pub restore_key : Text → Text → F (Unit {0})
  pub read_cache_config : F TransitCacheConfig
  pub write_cache_config : ℕ → F (Unit {0})

-- The implementation by the handler, with the decoders of the responses.
unfoldable pub transit_handler :
    (env : Env) (waiting : World → World) (c : VaultClient) (mount : Text)
    (read_transit_key_info : Decode TransitKeyInfo)
    (read_transit_exported_key : Decode TransitExportedKey) (encode : Text → Text)
    (read_transit_encrypt_response : Decode TransitEncryptResponse)
    (decode from_utf8 : Text → Text ⊎ Text)
    (read_transit_decrypt_response : Decode TransitDecryptResponse)
    (read_transit_rewrap_response : Decode TransitRewrapResponse)
    (read_transit_batch_encrypt_response : Decode TransitBatchEncryptResponse)
    (read_transit_batch_decrypt_response : Decode TransitBatchDecryptResponse)
    (read_transit_sign_response : Decode TransitSignResponse)
    (read_transit_verify_response : Decode TransitVerifyResponse)
    (read_transit_batch_sign_response : Decode TransitBatchSignResponse)
    (read_transit_batch_verify_response : Decode TransitBatchVerifyResponse)
    (read_transit_hash_response : Decode TransitHashResponse)
    (read_transit_hmac_response : Decode TransitHmacResponse)
    (read_transit_random_response : Decode TransitRandomResponse)
    (read_transit_data_key : Decode TransitDataKey)
    (read_transit_backup_response : Decode TransitBackupResponse)
    (read_transit_cache_config : Decode TransitCacheConfig)
    → TransitOperations M
transit_handler env waiting c mount read_transit_key_info read_transit_exported_key encode
      read_transit_encrypt_response decode from_utf8 read_transit_decrypt_response
      read_transit_rewrap_response read_transit_batch_encrypt_response
      read_transit_batch_decrypt_response read_transit_sign_response read_transit_verify_response
      read_transit_batch_sign_response read_transit_batch_verify_response read_transit_hash_response
      read_transit_hmac_response read_transit_random_response read_transit_data_key
      read_transit_backup_response read_transit_cache_config =
    record {
      create_key = Transit.create_key env waiting c mount;
      read_key = Transit.read_key env waiting c mount read_transit_key_info;
      list_keys = Transit.list_keys env waiting c mount;
      delete_key = Transit.delete_key env waiting c mount;
      update_key_config = Transit.update_key_config env waiting c mount;
      rotate_key = Transit.rotate_key env waiting c mount;
      export_key = Transit.export_key env waiting c mount read_transit_exported_key;
      encrypt = Crypto.encrypt env waiting c mount encode read_transit_encrypt_response;
      decrypt = Crypto.decrypt env waiting c mount decode from_utf8 read_transit_decrypt_response;
      rewrap = Crypto.rewrap env waiting c mount read_transit_rewrap_response;
      batch_encrypt = Crypto.batch_encrypt env waiting c mount read_transit_batch_encrypt_response;
      batch_decrypt = Crypto.batch_decrypt env waiting c mount read_transit_batch_decrypt_response;
      sign = Crypto.sign env waiting c mount encode read_transit_sign_response;
      verify = Crypto.verify env waiting c mount encode read_transit_verify_response;
      batch_sign = Crypto.batch_sign env waiting c mount read_transit_batch_sign_response;
      batch_verify = Crypto.batch_verify env waiting c mount read_transit_batch_verify_response;
      hash = Crypto.hash env waiting c mount encode read_transit_hash_response;
      hmac = Crypto.hmac env waiting c mount encode read_transit_hmac_response;
      random = Crypto.random env waiting c mount read_transit_random_response;
      generate_data_key = Crypto.generate_data_key env waiting c mount read_transit_data_key;
      trim_key = Transit.trim_key env waiting c mount;
      backup_key = Transit.backup_key env waiting c mount read_transit_backup_response;
      restore_key = Transit.restore_key env waiting c mount;
      read_cache_config = Transit.read_cache_config env waiting c mount read_transit_cache_config;
      write_cache_config = Transit.write_cache_config env waiting c mount;
    }

-- `TransitHandler` of blocking/mod.rs.
unfoldable pub blocking_transit : Bool → TransitOperations M → TransitOperations M
unfolding block_on
blocking_transit in_runtime o = record {
  create_key = λ a b. block_on in_runtime (o.create_key a b);
  read_key = λ a. block_on in_runtime (o.read_key a);
  list_keys = block_on in_runtime o.list_keys;
  delete_key = λ a. block_on in_runtime (o.delete_key a);
  update_key_config = λ a b. block_on in_runtime (o.update_key_config a b);
  rotate_key = λ a. block_on in_runtime (o.rotate_key a);
  export_key = λ a b d. block_on in_runtime (o.export_key a b d);
  encrypt = λ a b. block_on in_runtime (o.encrypt a b);
  decrypt = λ a b. block_on in_runtime (o.decrypt a b);
  rewrap = λ a b. block_on in_runtime (o.rewrap a b);
  batch_encrypt = λ a b. block_on in_runtime (o.batch_encrypt a b);
  batch_decrypt = λ a b. block_on in_runtime (o.batch_decrypt a b);
  sign = λ a b d. block_on in_runtime (o.sign a b d);
  verify = λ a b d. block_on in_runtime (o.verify a b d);
  batch_sign = λ a b d. block_on in_runtime (o.batch_sign a b d);
  batch_verify = λ a b. block_on in_runtime (o.batch_verify a b);
  hash = λ a b. block_on in_runtime (o.hash a b);
  hmac = λ a b d. block_on in_runtime (o.hmac a b d);
  random = λ a b. block_on in_runtime (o.random a b);
  generate_data_key = λ a b. block_on in_runtime (o.generate_data_key a b);
  trim_key = λ a b. block_on in_runtime (o.trim_key a b);
  backup_key = λ a. block_on in_runtime (o.backup_key a);
  restore_key = λ a b. block_on in_runtime (o.restore_key a b);
  read_cache_config = block_on in_runtime o.read_cache_config;
  write_cache_config = λ a. block_on in_runtime (o.write_cache_config a);
}
