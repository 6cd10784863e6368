-- ===== src/Operations/BlockingKv2.antt =====
-- blocking/mod.rs: KV version 2.
use vault_client_rs.Prelude.{ℕ, Bool, Option, List, ◌⊎◌}
use vault_client_rs.Prelude.Text.{Text}
use vault_client_rs.Json.{Json}
use vault_client_rs.VaultError.{VaultError}
use vault_client_rs.Client.{VaultClient}
use vault_client_rs.Effect.{Env, World, M}
use vault_client_rs.Wire.{Decode}
use vault_client_rs.Operations.{block_on}
use vault_client_rs.Kv.{
  HashMap, KvConfig, KvReadResponse, KvMetadata, KvFullMetadata, KvMetadataParams,
}
use vault_client_rs.Kv.V2

-- The operations of `Kv2Handler`; what is written is a value that serialises or does not, and the maps
-- of `read_field` and `read_string_data` have a decoder each.
pub record BlockingKv2Operations (T : Type 0) : Type 0 where
  pub read_config : M KvConfig
  pub write_config : KvConfig → M (Unit {0})
  pub read : Text → M (KvReadResponse T)
  pub read_data : Text → M T
  pub read_version : Text → ℕ → M (KvReadResponse T)
  pub write : Text → VaultError ⊎ Json → M KvMetadata
  pub write_cas : Text → VaultError ⊎ Json → ℕ → M KvMetadata
  pub patch : Text → VaultError ⊎ Json → M KvMetadata
  pub list : Text → M (List Text)
  pub delete : Text → M (Unit {0})
  pub delete_versions : Text → List ℕ → M (Unit {0})
  pub undelete_versions : Text → List ℕ → M (Unit {0})
  pub destroy_versions : Text → List ℕ → M (Unit {0})
  pub read_metadata : Text → M KvFullMetadata
  pub write_metadata : Text → KvMetadataParams → M (Unit {0})
  pub patch_metadata : Text → KvMetadataParams → M (Unit {0})
  pub delete_metadata : Text → M (Unit {0})
  pub write_field : Text → Text → Text → M KvMetadata
  pub read_field : Text → Text → M Text
  pub read_string_data : Text → M (HashMap Text)
  pub read_subkeys : Text → Option ℕ → M Json

-- The decoders of the responses, and the text of a JSON value.
module _ {T : Type 0} (read_config : Decode KvConfig) (read_value : Decode (KvReadResponse T))
    (read_kv_metadata : Decode KvMetadata) (read_kv_full_metadata : Decode KvFullMetadata)
    (read_fields : Decode (KvReadResponse (HashMap Json)))
    (read_strings : Decode (KvReadResponse (HashMap Text))) (to_string : Json → Text) where
  unfoldable pub blocking_kv2 :
      Bool → Env → (World → World) → VaultClient → Text → BlockingKv2Operations T
  unfolding block_on
  blocking_kv2 b env waiting c m = record {
    read_config = block_on b (V2.read_config env waiting c m read_config);
    write_config = λ p. block_on b (V2.write_config env waiting c m p);
    read = λ p. block_on b (V2.read env waiting c m read_value p);
    read_data = λ p. block_on b (V2.read_data env waiting c m read_value p);
    read_version = λ p v. block_on b (V2.read_version env waiting c m read_value p v);
    write = λ p v. block_on b (V2.write env waiting c m read_kv_metadata p v);
    write_cas = λ p v n. block_on b (V2.write_cas env waiting c m read_kv_metadata p v n);
    patch = λ p v. block_on b (V2.patch env waiting c m read_kv_metadata p v);
    list = λ p. block_on b (V2.list env waiting c m p);
    delete = λ p. block_on b (V2.delete env waiting c m p);
    delete_versions = λ p vs. block_on b (V2.delete_versions env waiting c m p vs);
    undelete_versions = λ p vs. block_on b (V2.undelete_versions env waiting c m p vs);
    destroy_versions = λ p vs. block_on b (V2.destroy_versions env waiting c m p vs);
    read_metadata = λ p. block_on b (V2.read_metadata env waiting c m read_kv_full_metadata p);
    write_metadata = λ p x. block_on b (V2.write_metadata env waiting c m p x);
    patch_metadata = λ p x. block_on b (V2.patch_metadata env waiting c m p x);
    delete_metadata = λ p. block_on b (V2.delete_metadata env waiting c m p);
    write_field = λ p n v. block_on b (V2.write_field env waiting c m read_kv_metadata p n v);
    read_field = λ p n. block_on b (V2.read_field env waiting c m to_string read_fields p n);
    read_string_data = λ p. block_on b (V2.read_data env waiting c m read_strings p);
    read_subkeys = λ p d. block_on b (V2.read_subkeys env waiting c m p d);
  }
