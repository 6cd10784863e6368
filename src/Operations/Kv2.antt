-- ===== src/Operations/Kv2.antt =====
-- api/traits.rs: `Kv2Operations`.
use vault_client_rs.Prelude.{ℕ, Option, List}
use vault_client_rs.Prelude.Text.{Text}
use vault_client_rs.Json.{Json}
use vault_client_rs.Client.{VaultClient}
use vault_client_rs.Effect.{Env, World, M}
use vault_client_rs.Wire.{Decode}
use vault_client_rs.Kv.{KvConfig, KvReadResponse, KvMetadata, KvFullMetadata, KvMetadataParams}
use vault_client_rs.Kv.V2

pub record Kv2Operations (F : Type 0 → Type 0) (T : Type 0) : Type 0 where
  pub read_config : F KvConfig
  pub write_config : KvConfig → F (Unit {0})
  pub read : Text → F (KvReadResponse T)
  pub read_data : Text → F T
  pub read_version : Text → ℕ → F (KvReadResponse T)
  pub write : Text → Json → F KvMetadata
  pub write_cas : Text → Json → ℕ → F KvMetadata
  pub patch : Text → Json → F KvMetadata
  pub list : Text → F (List Text)
  pub delete : Text → F (Unit {0})
  pub delete_versions : Text → List ℕ → F (Unit {0})
  pub undelete_versions : Text → List ℕ → F (Unit {0})
  pub destroy_versions : Text → List ℕ → F (Unit {0})
  pub read_metadata : Text → F KvFullMetadata
  pub write_metadata : Text → KvMetadataParams → F (Unit {0})
  pub patch_metadata : Text → KvMetadataParams → F (Unit {0})
  pub delete_metadata : Text → F (Unit {0})
  pub read_subkeys : Text → Option ℕ → F Json

-- The implementation by the handler, with the decoders of the responses.
unfoldable pub kv2_handler :
    {T : Type 0}
    → (env : Env) (waiting : World → World) (c : VaultClient) (mount : Text)
      (read_config : Decode KvConfig) (read_value : Decode (KvReadResponse T))
      (read_kv_metadata : Decode KvMetadata) (read_kv_full_metadata : Decode KvFullMetadata)
    → Kv2Operations M T
kv2_handler env waiting c mount read_config read_value read_kv_metadata read_kv_full_metadata =
    record {
      read_config = V2.read_config env waiting c mount read_config;
      write_config = V2.write_config env waiting c mount;
      read = V2.read env waiting c mount read_value;
      read_data = V2.read_data env waiting c mount read_value;
      read_version = V2.read_version env waiting c mount read_value;
      write = V2.write_value env waiting c mount read_kv_metadata;
      write_cas = V2.write_cas_value env waiting c mount read_kv_metadata;
      patch = V2.patch_value env waiting c mount read_kv_metadata;
      list = V2.list env waiting c mount;
      delete = V2.delete env waiting c mount;
      delete_versions = V2.delete_versions env waiting c mount;
      undelete_versions = V2.undelete_versions env waiting c mount;
      destroy_versions = V2.destroy_versions env waiting c mount;
      read_metadata = V2.read_metadata env waiting c mount read_kv_full_metadata;
      write_metadata = V2.write_metadata env waiting c mount;
      patch_metadata = V2.patch_metadata env waiting c mount;
      delete_metadata = V2.delete_metadata env waiting c mount;
      read_subkeys = V2.read_subkeys env waiting c mount;
    }
