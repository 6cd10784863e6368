-- ===== src/Engines/Pki.antt =====
-- api/pki.rs: the Pki handler.
pub mod Types
pub mod Params
use vault_client_rs.Prelude.{none, some, List, ◌⊎◌}
use vault_client_rs.Prelude.Text.{Text}
use vault_client_rs.Json.{object, end}
use vault_client_rs.VaultError.{ReqwestError}
use vault_client_rs.Client.{VaultClient}
use vault_client_rs.Token.{decoded}
use vault_client_rs.Effect.{Env, get, post, Method, Response, World, M, ◌>>=◌}
use vault_client_rs.Execute.{execute, exec_with_data, exec_empty, exec_list}
use vault_client_rs.Wire.{Decode, below, named, member}
use vault_client_rs.Engines.Pki.Types.{
  PkiCertificate, PkiCsr, PkiImportResult, PkiIssuerInfo, PkiRole, PkiIssuedCert, PkiSignedCert,
  PkiRevocationInfo, PkiCertificateEntry, PkiTidyStatus,
}
use vault_client_rs.Engines.Pki.Params.{
  PkiRootParams, pki_root_params_body, PkiIntermediateParams, pki_intermediate_params_body,
  PkiRoleParams, pki_role_params_body, PkiIssueParams, pki_issue_params_body, PkiSignParams,
  pki_sign_params_body, PkiUrlsConfig, pki_urls_config_body, PkiTidyParams, pki_tidy_params_body,
  PkiIssuerUpdateParams, pki_issuer_update_params_body, PkiCrossSignRequest,
  pki_cross_sign_request_body, PkiAcmeConfig, pki_acme_config_body,
}

module _ (env : Env) (waiting : World → World) (c : VaultClient) (mount : Text) where
  unfoldable pub generate_root : Decode PkiCertificate → PkiRootParams → M PkiCertificate
  generate_root decode params =
      exec_with_data env waiting c decode post (named mount "/root/generate/" params.generate_type)
        (some (pki_root_params_body params))

  unfoldable pub generate_intermediate_csr : Decode PkiCsr → PkiIntermediateParams → M PkiCsr
  generate_intermediate_csr decode params =
      exec_with_data env waiting c decode post
        (named mount "/intermediate/generate/" params.generate_type)
        (some (pki_intermediate_params_body params))

  unfoldable pub set_signed_intermediate : Decode PkiImportResult → Text → M PkiImportResult
  set_signed_intermediate decode certificate =
      exec_with_data env waiting c decode post (below mount "/intermediate/set-signed")
        (some (object (member "certificate" certificate end)))

  unfoldable pub delete_root : M (Unit {0})
  delete_root = exec_empty env waiting c Method.delete (below mount "/root") none

  unfoldable pub list_issuers : M (List Text)
  list_issuers = exec_list env waiting c (below mount "/issuers")

  unfoldable pub read_issuer : Decode PkiIssuerInfo → Text → M PkiIssuerInfo
  read_issuer decode issuer_ref =
      exec_with_data env waiting c decode get (named mount "/issuer/" issuer_ref) none

  unfoldable pub delete_issuer : Text → M (Unit {0})
  delete_issuer issuer_ref =
      exec_empty env waiting c Method.delete (named mount "/issuer/" issuer_ref) none

  unfoldable pub create_role : Text → PkiRoleParams → M (Unit {0})
  create_role name params =
      exec_empty env waiting c post (named mount "/roles/" name)
        (some (pki_role_params_body params))

  unfoldable pub read_role : Decode PkiRole → Text → M PkiRole
  read_role decode name = exec_with_data env waiting c decode get (named mount "/roles/" name) none

  unfoldable pub list_roles : M (List Text)
  list_roles = exec_list env waiting c (below mount "/roles")

  unfoldable pub delete_role : Text → M (Unit {0})
  delete_role name = exec_empty env waiting c Method.delete (named mount "/roles/" name) none

  unfoldable pub issue : Decode PkiIssuedCert → Text → PkiIssueParams → M PkiIssuedCert
  issue decode role params =
      exec_with_data env waiting c decode post (named mount "/issue/" role)
        (some (pki_issue_params_body params))

  unfoldable pub sign : Decode PkiSignedCert → Text → PkiSignParams → M PkiSignedCert
  sign decode role params =
      exec_with_data env waiting c decode post (named mount "/sign/" role)
        (some (pki_sign_params_body params))

  unfoldable pub sign_verbatim : Decode PkiSignedCert → Text → Text → M PkiSignedCert
  sign_verbatim decode role csr =
      exec_with_data env waiting c decode post (named mount "/sign-verbatim/" role)
        (some (object (member "csr" csr end)))

  unfoldable pub list_certs : M (List Text)
  list_certs = exec_list env waiting c (below mount "/certs")

  unfoldable pub read_cert : Decode PkiCertificateEntry → Text → M PkiCertificateEntry
  read_cert decode serial =
      exec_with_data env waiting c decode get (named mount "/cert/" serial) none

  unfoldable pub set_urls : PkiUrlsConfig → M (Unit {0})
  set_urls cfg =
      exec_empty env waiting c post (below mount "/config/urls") (some (pki_urls_config_body cfg))

  unfoldable pub read_urls : Decode PkiUrlsConfig → M PkiUrlsConfig
  read_urls decode = exec_with_data env waiting c decode get (below mount "/config/urls") none

  unfoldable pub revoke : Decode PkiRevocationInfo → Text → M PkiRevocationInfo
  revoke decode serial =
      exec_with_data env waiting c decode post (below mount "/revoke")
        (some (object (member "serial_number" serial end)))

  unfoldable pub revoke_with_key : Decode PkiRevocationInfo → Text → Text → M PkiRevocationInfo
  revoke_with_key decode serial private_key =
      exec_with_data env waiting c decode post (below mount "/revoke-with-key")
        (some (object (member "serial_number" serial (member "private_key" private_key end))))

  unfoldable pub rotate_crl : M (Unit {0})
  rotate_crl = exec_empty env waiting c post (below mount "/crl/rotate") none

  unfoldable pub tidy : PkiTidyParams → M (Unit {0})
  tidy params =
      exec_empty env waiting c post (below mount "/tidy") (some (pki_tidy_params_body params))

  unfoldable pub tidy_status : Decode PkiTidyStatus → M PkiTidyStatus
  tidy_status decode = exec_with_data env waiting c decode get (below mount "/tidy-status") none

  unfoldable pub update_issuer :
      Decode PkiIssuerInfo → Text → PkiIssuerUpdateParams → M PkiIssuerInfo
  update_issuer decode issuer_ref params =
      exec_with_data env waiting c decode post (named mount "/issuer/" issuer_ref)
        (some (pki_issuer_update_params_body params))

  unfoldable pub cross_sign_intermediate :
      Decode PkiCertificate → PkiCrossSignRequest → M PkiCertificate
  cross_sign_intermediate decode params =
      exec_with_data env waiting c decode post (below mount "/intermediate/cross-sign")
        (some (pki_cross_sign_request_body params))

  unfoldable pub read_acme_config : Decode PkiAcmeConfig → M PkiAcmeConfig
  read_acme_config decode =
      exec_with_data env waiting c decode get (below mount "/config/acme") none

  unfoldable pub write_acme_config : PkiAcmeConfig → M (Unit {0})
  write_acme_config cfg =
      exec_empty env waiting c post (below mount "/config/acme") (some (pki_acme_config_body cfg))

  unfoldable pub rotate_delta_crl : M (Unit {0})
  rotate_delta_crl = exec_empty env waiting c post (below mount "/crl/rotate-delta") none

  -- With `Response::bytes`.
  unfoldable pub read_crl : (Response → ReqwestError ⊎ Text) → M Text
  read_crl bytes w =
      (do resp ← execute env waiting c get (below mount "/crl") none; decoded (bytes resp)) w

  unfoldable pub read_crl_delta : (Response → ReqwestError ⊎ Text) → M Text
  read_crl_delta bytes w =
      (do resp ← execute env waiting c get (below mount "/crl/delta") none; decoded (bytes resp)) w
