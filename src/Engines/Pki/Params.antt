-- ===== src/Engines/Pki/Params.antt =====
-- types/pki.rs: the types of the pki handler that it sends.
use vault_client_rs.Prelude.{ℕ, Bool, Option, List}
use vault_client_rs.Prelude.Text.{Text, codes}
use vault_client_rs.Json.{Json, Number, number, string, bool, object, end, field}
use vault_client_rs.Wire.{unless_none, u64_json, array_of, unless_no_items, nullable}

pub record PkiRootParams : Type 0 where
  pub generate_type : Text
  pub common_name : Text
  pub alt_names : Option Text
  pub ip_sans : Option Text
  pub uri_sans : Option Text
  pub ttl : Option Text
  pub max_path_length : Option Number
  pub key_type : Option Text
  pub key_bits : Option ℕ
  pub issuer_name : Option Text

unfoldable pub pki_root_params_body : PkiRootParams → Json
pki_root_params_body p = object (
    field (codes "common_name") (string p.common_name) (
      unless_none string (codes "alt_names") p.alt_names (
        unless_none string (codes "ip_sans") p.ip_sans (
          unless_none string (codes "uri_sans") p.uri_sans (
            unless_none string (codes "ttl") p.ttl (
              unless_none number (codes "max_path_length") p.max_path_length (
                unless_none string (codes "key_type") p.key_type (
                  unless_none u64_json (codes "key_bits") p.key_bits
                    (unless_none string (codes "issuer_name") p.issuer_name end)))))))))

pub record PkiIntermediateParams : Type 0 where
  pub generate_type : Text
  pub common_name : Text
  pub key_type : Option Text
  pub key_bits : Option ℕ

unfoldable pub pki_intermediate_params_body : PkiIntermediateParams → Json
pki_intermediate_params_body p = object (
    field (codes "common_name") (string p.common_name) (
      unless_none string (codes "key_type") p.key_type
        (unless_none u64_json (codes "key_bits") p.key_bits end)))

pub record PkiRoleParams : Type 0 where
  pub ttl : Option Text
  pub max_ttl : Option Text
  pub allow_localhost : Option Bool
  pub allowed_domains : Option (List Text)
  pub allow_bare_domains : Option Bool
  pub allow_subdomains : Option Bool
  pub allow_any_name : Option Bool
  pub enforce_hostnames : Option Bool
  pub allow_ip_sans : Option Bool
  pub server_flag : Option Bool
  pub client_flag : Option Bool
  pub key_type : Option Text
  pub key_bits : Option ℕ
  pub generate_lease : Option Bool
  pub no_store : Option Bool

unfoldable pub pki_role_params_body : PkiRoleParams → Json
pki_role_params_body p = object (
    unless_none string (codes "ttl") p.ttl (
      unless_none string (codes "max_ttl") p.max_ttl (
        unless_none bool (codes "allow_localhost") p.allow_localhost (
          unless_none (array_of string) (codes "allowed_domains") p.allowed_domains (
            unless_none bool (codes "allow_bare_domains") p.allow_bare_domains (
              unless_none bool (codes "allow_subdomains") p.allow_subdomains (
                unless_none bool (codes "allow_any_name") p.allow_any_name (
                  unless_none bool (codes "enforce_hostnames") p.enforce_hostnames (
                    unless_none bool (codes "allow_ip_sans") p.allow_ip_sans (
                      unless_none bool (codes "server_flag") p.server_flag (
                        unless_none bool (codes "client_flag") p.client_flag (
                          unless_none string (codes "key_type") p.key_type (
                            unless_none u64_json (codes "key_bits") p.key_bits (
                              unless_none bool (codes "generate_lease") p.generate_lease
                                (unless_none bool (codes "no_store") p.no_store end)))))))))))))))

pub record PkiIssueParams : Type 0 where
  pub common_name : Text
  pub alt_names : Option Text
  pub ip_sans : Option Text
  pub ttl : Option Text
  pub format : Option Text
  pub private_key_format : Option Text

unfoldable pub pki_issue_params_body : PkiIssueParams → Json
pki_issue_params_body p = object (
    field (codes "common_name") (string p.common_name) (
      unless_none string (codes "alt_names") p.alt_names (
        unless_none string (codes "ip_sans") p.ip_sans (
          unless_none string (codes "ttl") p.ttl (
            unless_none string (codes "format") p.format
              (unless_none string (codes "private_key_format") p.private_key_format end))))))

pub record PkiSignParams : Type 0 where
  pub csr : Text
  pub common_name : Text
  pub alt_names : Option Text
  pub ttl : Option Text

unfoldable pub pki_sign_params_body : PkiSignParams → Json
pki_sign_params_body p = object (
    field (codes "csr") (string p.csr) (
      field (codes "common_name") (string p.common_name) (
        unless_none string (codes "alt_names") p.alt_names
          (unless_none string (codes "ttl") p.ttl end))))

pub record PkiUrlsConfig : Type 0 where
  pub issuing_certificates : List Text
  pub crl_distribution_points : List Text
  pub ocsp_servers : List Text

unfoldable pub pki_urls_config_body : PkiUrlsConfig → Json
pki_urls_config_body p = object (
    unless_no_items string "issuing_certificates" p.issuing_certificates (
      unless_no_items string "crl_distribution_points" p.crl_distribution_points
        (unless_no_items string "ocsp_servers" p.ocsp_servers end)))

pub record PkiTidyParams : Type 0 where
  pub tidy_cert_store : Option Bool
  pub tidy_revoked_certs : Option Bool
  pub safety_buffer : Option Text

unfoldable pub pki_tidy_params_body : PkiTidyParams → Json
pki_tidy_params_body p = object (
    unless_none bool (codes "tidy_cert_store") p.tidy_cert_store (
      unless_none bool (codes "tidy_revoked_certs") p.tidy_revoked_certs
        (unless_none string (codes "safety_buffer") p.safety_buffer end)))

pub record PkiIssuerUpdateParams : Type 0 where
  pub issuer_name : Option Text
  pub leaf_not_after_behavior : Option Text
  pub usage : Option Text
  pub manual_chain : Option (List Text)

unfoldable pub pki_issuer_update_params_body : PkiIssuerUpdateParams → Json
pki_issuer_update_params_body p = object (
    unless_none string (codes "issuer_name") p.issuer_name (
      unless_none string (codes "leaf_not_after_behavior") p.leaf_not_after_behavior (
        unless_none string (codes "usage") p.usage
          (unless_none (array_of string) (codes "manual_chain") p.manual_chain end))))

pub record PkiCrossSignRequest : Type 0 where
  pub common_name : Text
  pub key_type : Option Text
  pub key_bits : Option ℕ

unfoldable pub pki_cross_sign_request_body : PkiCrossSignRequest → Json
pki_cross_sign_request_body p = object (
    field (codes "common_name") (string p.common_name) (
      unless_none string (codes "key_type") p.key_type
        (unless_none u64_json (codes "key_bits") p.key_bits end)))

pub record PkiAcmeConfig : Type 0 where
  pub enabled : Bool
  pub allowed_issuers : List Text
  pub allowed_roles : List Text
  pub default_directory_policy : Option Text
  pub dns_resolver : Option Text
  pub eab_policy : Option Text

unfoldable pub pki_acme_config_body : PkiAcmeConfig → Json
pki_acme_config_body p = object (
    field (codes "enabled") (bool p.enabled) (
      unless_no_items string "allowed_issuers" p.allowed_issuers (
        unless_no_items string "allowed_roles" p.allowed_roles (
          field (codes "default_directory_policy") (nullable string p.default_directory_policy) (
            field (codes "dns_resolver") (nullable string p.dns_resolver)
              (field (codes "eab_policy") (nullable string p.eab_policy) end))))))
