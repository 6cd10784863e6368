-- ===== src/Engines/Transit/Types.antt =====
-- types/transit.rs: the types of the transit handler.
use vault_client_rs.Prelude.{ℕ, Bool, Option, List}
use vault_client_rs.Prelude.Text.{Text, codes}
use vault_client_rs.Json.{Json, string, bool, object, end, field}
use vault_client_rs.Wire.{HashMap, unless_none, u64_json, unless_no_text}

pub record TransitKeyParams : Type 0 where
  pub key_type : Option Text
  pub derived : Option Bool
  pub convergent_encryption : Option Bool
  pub exportable : Option Bool
  pub allow_plaintext_backup : Option Bool
  pub auto_rotate_period : Option Text
  pub key_size : Option ℕ

unfoldable pub transit_key_params_body : TransitKeyParams → Json
transit_key_params_body p = object (
    unless_none string (codes "type") p.key_type (
      unless_none bool (codes "derived") p.derived (
        unless_none bool (codes "convergent_encryption") p.convergent_encryption (
          unless_none bool (codes "exportable") p.exportable (
            unless_none bool (codes "allow_plaintext_backup") p.allow_plaintext_backup (
              unless_none string (codes "auto_rotate_period") p.auto_rotate_period
                (unless_none u64_json (codes "key_size") p.key_size end)))))))

pub record TransitKeyInfo : Type 0 where
  pub key_type : Text
  pub deletion_allowed : Bool
  pub derived : Bool
  pub exportable : Bool
  pub allow_plaintext_backup : Bool
  pub keys : HashMap Json
  pub min_decryption_version : ℕ
  pub min_encryption_version : ℕ
  pub name : Text
  pub supports_encryption : Bool
  pub supports_decryption : Bool
  pub supports_derivation : Bool
  pub supports_signing : Bool
  pub auto_rotate_period : ℕ
  pub latest_version : ℕ

pub record TransitKeyConfig : Type 0 where
  pub min_decryption_version : Option ℕ
  pub min_encryption_version : Option ℕ
  pub deletion_allowed : Option Bool
  pub exportable : Option Bool
  pub allow_plaintext_backup : Option Bool
  pub auto_rotate_period : Option Text

unfoldable pub transit_key_config_body : TransitKeyConfig → Json
transit_key_config_body p = object (
    unless_none u64_json (codes "min_decryption_version") p.min_decryption_version (
      unless_none u64_json (codes "min_encryption_version") p.min_encryption_version (
        unless_none bool (codes "deletion_allowed") p.deletion_allowed (
          unless_none bool (codes "exportable") p.exportable (
            unless_none bool (codes "allow_plaintext_backup") p.allow_plaintext_backup
              (unless_none string (codes "auto_rotate_period") p.auto_rotate_period end))))))

pub record TransitEncryptResponse : Type 0 where
  pub ciphertext : Text

pub record TransitDecryptResponse : Type 0 where
  pub plaintext : Text

pub record TransitRewrapResponse : Type 0 where
  pub ciphertext : Text

pub record TransitBatchPlaintext : Type 0 where
  pub plaintext : Text
  pub context : Option Text

unfoldable pub transit_batch_plaintext_body : TransitBatchPlaintext → Json
transit_batch_plaintext_body p = object (
    field (codes "plaintext") (string p.plaintext)
      (unless_none string (codes "context") p.context end))

pub record TransitBatchCiphertext : Type 0 where
  pub ciphertext : Text
  pub error : Text

unfoldable pub transit_batch_ciphertext_body : TransitBatchCiphertext → Json
transit_batch_ciphertext_body p =
    object (field (codes "ciphertext") (string p.ciphertext) (unless_no_text "error" p.error end))

pub record TransitSignParams : Type 0 where
  pub hash_algorithm : Option Text
  pub signature_algorithm : Option Text
  pub marshaling_algorithm : Option Text
  pub prehashed : Option Bool
  pub salt_length : Option Text

unfoldable pub transit_sign_params_body : TransitSignParams → Json
transit_sign_params_body p = object (
    unless_none string (codes "hash_algorithm") p.hash_algorithm (
      unless_none string (codes "signature_algorithm") p.signature_algorithm (
        unless_none string (codes "marshaling_algorithm") p.marshaling_algorithm (
          unless_none bool (codes "prehashed") p.prehashed
            (unless_none string (codes "salt_length") p.salt_length end)))))

pub record TransitSignResponse : Type 0 where
  pub signature : Text

pub record TransitVerifyResponse : Type 0 where
  pub valid : Bool

pub record TransitHashResponse : Type 0 where
  pub sum : Text

pub record TransitHmacResponse : Type 0 where
  pub hmac : Text

pub record TransitRandomResponse : Type 0 where
  pub random_bytes : Text

pub record TransitDataKey : Type 0 where
  pub ciphertext : Text
  pub plaintext : Option Text

pub record TransitExportedKey : Type 0 where
  pub name : Text
  pub keys : HashMap Text
  pub key_type : Text

pub record TransitCacheConfig : Type 0 where
  pub size : ℕ

pub record TransitBatchEncryptResponse : Type 0 where
  pub batch_results : List TransitBatchCiphertext

pub record TransitBatchDecryptItem : Type 0 where
  pub plaintext : Option Text
  pub error : Text

pub record TransitBatchDecryptResponse : Type 0 where
  pub batch_results : List TransitBatchDecryptItem

pub record TransitBackupResponse : Type 0 where
  pub backup : Text

pub record TransitBatchSignInput : Type 0 where
  pub input : Text
  pub context : Option Text

unfoldable pub transit_batch_sign_input_body : TransitBatchSignInput → Json
transit_batch_sign_input_body p =
    object
      (field (codes "input") (string p.input) (unless_none string (codes "context") p.context end))

pub record TransitBatchSignResult : Type 0 where
  pub signature : Text
  pub error : Text

pub record TransitBatchVerifyInput : Type 0 where
  pub input : Text
  pub signature : Text
  pub context : Option Text

unfoldable pub transit_batch_verify_input_body : TransitBatchVerifyInput → Json
transit_batch_verify_input_body p = object (
    field (codes "input") (string p.input) (
      field (codes "signature") (string p.signature)
        (unless_none string (codes "context") p.context end)))

pub record TransitBatchVerifyResult : Type 0 where
  pub valid : Bool
  pub error : Text

pub record TransitBatchSignResponse : Type 0 where
  pub batch_results : List TransitBatchSignResult

pub record TransitBatchVerifyResponse : Type 0 where
  pub batch_results : List TransitBatchVerifyResult
