-- ===== src/Operations/Pki.antt =====
-- api/traits.rs: `PkiOperations`, and its blocking form.
use vault_client_rs.Prelude.{ℕ, Bool, List, ◌⊎◌}
use vault_client_rs.Prelude.Text.{Text}
use vault_client_rs.VaultError.{ReqwestError}
use vault_client_rs.Client.{VaultClient}
use vault_client_rs.Effect.{Env, Response, World, M}
use vault_client_rs.Wire.{Decode}
use vault_client_rs.Operations.{block_on}
use vault_client_rs.Engines.Pki
use vault_client_rs.Engines.Pki.Types.{
  PkiCertificate, PkiCsr, PkiImportResult, PkiIssuerInfo, PkiRole, PkiIssuedCert, PkiSignedCert,
  PkiRevocationInfo, PkiCertificateEntry, PkiTidyStatus,
}
use vault_client_rs.Engines.Pki.Params.{
  PkiRootParams, PkiIntermediateParams, PkiRoleParams, PkiIssueParams, PkiSignParams, PkiUrlsConfig,
  PkiTidyParams, PkiIssuerUpdateParams, PkiCrossSignRequest, PkiAcmeConfig,
}

pub record PkiOperations (F : Type 0 → Type 0) : Type 0 where
  pub generate_root : PkiRootParams → F PkiCertificate
  pub generate_intermediate_csr : PkiIntermediateParams → F PkiCsr
  pub set_signed_intermediate : Text → F PkiImportResult
  pub delete_root : F (Unit {0})
  pub list_issuers : F (List Text)
  pub read_issuer : Text → F PkiIssuerInfo
  pub update_issuer : Text → PkiIssuerUpdateParams → F PkiIssuerInfo
  pub delete_issuer : Text → F (Unit {0})
  pub create_role : Text → PkiRoleParams → F (Unit {0})
  pub read_role : Text → F PkiRole
  pub list_roles : F (List Text)
  pub delete_role : Text → F (Unit {0})
  pub issue : Text → PkiIssueParams → F PkiIssuedCert
  pub sign : Text → PkiSignParams → F PkiSignedCert
  pub sign_verbatim : Text → Text → F PkiSignedCert
  pub list_certs : F (List Text)
  pub read_cert : Text → F PkiCertificateEntry
  pub set_urls : PkiUrlsConfig → F (Unit {0})
  pub read_urls : F PkiUrlsConfig
  pub revoke : Text → F PkiRevocationInfo
  pub revoke_with_key : Text → Text → F PkiRevocationInfo
  pub rotate_crl : F (Unit {0})
  pub tidy : PkiTidyParams → F (Unit {0})
  pub tidy_status : F PkiTidyStatus
  pub cross_sign_intermediate : PkiCrossSignRequest → F PkiCertificate
  pub read_acme_config : F PkiAcmeConfig
  pub write_acme_config : PkiAcmeConfig → F (Unit {0})
  pub rotate_delta_crl : F (Unit {0})
  pub read_crl : F (List ℕ)
  pub read_crl_delta : F (List ℕ)

-- The implementation by the handler, with the decoders of the responses.
unfoldable pub pki_handler :
    (env : Env) (waiting : World → World) (c : VaultClient) (mount : Text)
    (read_pki_certificate : Decode PkiCertificate) (read_pki_csr : Decode PkiCsr)
    (read_pki_import_result : Decode PkiImportResult) (read_pki_issuer_info : Decode PkiIssuerInfo)
    (read_pki_role : Decode PkiRole) (read_pki_issued_cert : Decode PkiIssuedCert)
    (read_pki_signed_cert : Decode PkiSignedCert)
    (read_pki_certificate_entry : Decode PkiCertificateEntry)
    (read_pki_urls_config : Decode PkiUrlsConfig)
    (read_pki_revocation_info : Decode PkiRevocationInfo)
    (read_pki_tidy_status : Decode PkiTidyStatus) (read_pki_acme_config : Decode PkiAcmeConfig)
    (bytes : Response → ReqwestError ⊎ Text)
    → PkiOperations M
pki_handler env waiting c mount read_pki_certificate read_pki_csr read_pki_import_result
      read_pki_issuer_info read_pki_role read_pki_issued_cert read_pki_signed_cert
      read_pki_certificate_entry read_pki_urls_config read_pki_revocation_info read_pki_tidy_status
      read_pki_acme_config bytes =
    record {
      generate_root = Pki.generate_root env waiting c mount read_pki_certificate;
      generate_intermediate_csr = Pki.generate_intermediate_csr env waiting c mount read_pki_csr;
      set_signed_intermediate =
          Pki.set_signed_intermediate env waiting c mount read_pki_import_result;
      delete_root = Pki.delete_root env waiting c mount;
      list_issuers = Pki.list_issuers env waiting c mount;
      read_issuer = Pki.read_issuer env waiting c mount read_pki_issuer_info;
      update_issuer = Pki.update_issuer env waiting c mount read_pki_issuer_info;
      delete_issuer = Pki.delete_issuer env waiting c mount;
      create_role = Pki.create_role env waiting c mount;
      read_role = Pki.read_role env waiting c mount read_pki_role;
      list_roles = Pki.list_roles env waiting c mount;
      delete_role = Pki.delete_role env waiting c mount;
      issue = Pki.issue env waiting c mount read_pki_issued_cert;
      sign = Pki.sign env waiting c mount read_pki_signed_cert;
      sign_verbatim = Pki.sign_verbatim env waiting c mount read_pki_signed_cert;
      list_certs = Pki.list_certs env waiting c mount;
      read_cert = Pki.read_cert env waiting c mount read_pki_certificate_entry;
      set_urls = Pki.set_urls env waiting c mount;
      read_urls = Pki.read_urls env waiting c mount read_pki_urls_config;
      revoke = Pki.revoke env waiting c mount read_pki_revocation_info;
      revoke_with_key = Pki.revoke_with_key env waiting c mount read_pki_revocation_info;
      rotate_crl = Pki.rotate_crl env waiting c mount;
      tidy = Pki.tidy env waiting c mount;
      tidy_status = Pki.tidy_status env waiting c mount read_pki_tidy_status;
      cross_sign_intermediate =
          Pki.cross_sign_intermediate env waiting c mount read_pki_certificate;
      read_acme_config = Pki.read_acme_config env waiting c mount read_pki_acme_config;
      write_acme_config = Pki.write_acme_config env waiting c mount;
      rotate_delta_crl = Pki.rotate_delta_crl env waiting c mount;
      read_crl = Pki.read_crl env waiting c mount bytes;
      read_crl_delta = Pki.read_crl_delta env waiting c mount bytes;
    }

-- `PkiHandler` of blocking/mod.rs.
unfoldable pub blocking_pki : Bool → PkiOperations M → PkiOperations M
unfolding block_on
blocking_pki in_runtime o = record {
  generate_root = λ a. block_on in_runtime (o.generate_root a);
  generate_intermediate_csr = λ a. block_on in_runtime (o.generate_intermediate_csr a);
  set_signed_intermediate = λ a. block_on in_runtime (o.set_signed_intermediate a);
  delete_root = block_on in_runtime o.delete_root;
  list_issuers = block_on in_runtime o.list_issuers;
  read_issuer = λ a. block_on in_runtime (o.read_issuer a);
  update_issuer = λ a b. block_on in_runtime (o.update_issuer a b);
  delete_issuer = λ a. block_on in_runtime (o.delete_issuer a);
  create_role = λ a b. block_on in_runtime (o.create_role a b);
  read_role = λ a. block_on in_runtime (o.read_role a);
  list_roles = block_on in_runtime o.list_roles;
  delete_role = λ a. block_on in_runtime (o.delete_role a);
  issue = λ a b. block_on in_runtime (o.issue a b);
  sign = λ a b. block_on in_runtime (o.sign a b);
  sign_verbatim = λ a b. block_on in_runtime (o.sign_verbatim a b);
  list_certs = block_on in_runtime o.list_certs;
  read_cert = λ a. block_on in_runtime (o.read_cert a);
  set_urls = λ a. block_on in_runtime (o.set_urls a);
  read_urls = block_on in_runtime o.read_urls;
  revoke = λ a. block_on in_runtime (o.revoke a);
  revoke_with_key = λ a b. block_on in_runtime (o.revoke_with_key a b);
  rotate_crl = block_on in_runtime o.rotate_crl;
  tidy = λ a. block_on in_runtime (o.tidy a);
  tidy_status = block_on in_runtime o.tidy_status;
  cross_sign_intermediate = λ a. block_on in_runtime (o.cross_sign_intermediate a);
  read_acme_config = block_on in_runtime o.read_acme_config;
  write_acme_config = λ a. block_on in_runtime (o.write_acme_config a);
  rotate_delta_crl = block_on in_runtime o.rotate_delta_crl;
  read_crl = block_on in_runtime o.read_crl;
  read_crl_delta = block_on in_runtime o.read_crl_delta;
}
