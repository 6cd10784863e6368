-- ===== src/Engines/Pki/Types.antt =====
-- types/pki.rs: the types of the pki handler that it receives.
use vault_client_rs.Prelude.{ℕ, Bool, Option, List}
use vault_client_rs.Prelude.Text.{Text}
use vault_client_rs.Json.{Json}

pub record PkiCertificate : Type 0 where
  pub certificate : Text
  pub issuing_ca : Text
  pub ca_chain : List Text
  pub serial_number : Text
  pub expiration : Option ℕ
  pub private_key : Option Text
  pub private_key_type : Option Text

pub record PkiCsr : Type 0 where
  pub csr : Text
  pub private_key : Option Text
  pub private_key_type : Option Text

pub record PkiImportResult : Type 0 where
  pub imported_issuers : Option (List Text)
  pub imported_keys : Option (List Text)
  pub mapping : Option Json

pub record PkiIssuerInfo : Type 0 where
  pub issuer_id : Text
  pub issuer_name : Option Text
  pub certificate : Text
  pub ca_chain : List Text
  pub leaf_not_after_behavior : Text
  pub usage : Text

pub record PkiRole : Type 0 where
  pub ttl : ℕ
  pub max_ttl : ℕ
  pub allow_localhost : Bool
  pub allowed_domains : List Text
  pub allow_bare_domains : Bool
  pub allow_subdomains : Bool
  pub allow_any_name : Bool
  pub enforce_hostnames : Bool
  pub allow_ip_sans : Bool
  pub server_flag : Bool
  pub client_flag : Bool
  pub key_type : Text
  pub key_bits : ℕ
  pub generate_lease : Bool
  pub no_store : Bool

pub record PkiIssuedCert : Type 0 where
  pub certificate : Text
  pub issuing_ca : Text
  pub ca_chain : List Text
  pub private_key : Text
  pub private_key_type : Text
  pub serial_number : Text
  pub expiration : ℕ

pub record PkiSignedCert : Type 0 where
  pub certificate : Text
  pub issuing_ca : Text
  pub ca_chain : List Text
  pub serial_number : Text
  pub expiration : ℕ

pub record PkiRevocationInfo : Type 0 where
  pub revocation_time : ℕ
  pub revocation_time_rfc3339 : Text

pub record PkiCertificateEntry : Type 0 where
  pub certificate : Text
  pub revocation_time : ℕ
  pub revocation_time_rfc3339 : Text

pub record PkiTidyStatus : Type 0 where
  pub state : Text
  pub error : Option Text
  pub time_started : Option Text
  pub time_finished : Option Text
  pub cert_store_deleted_count : Option ℕ
  pub revoked_cert_deleted_count : Option ℕ
