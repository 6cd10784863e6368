-- ===== src/Engines/Ssh.antt =====
-- api/ssh.rs, types/ssh.rs: the Ssh handler, and its types.
use vault_client_rs.Prelude.{ℕ, Bool, Option, none, some, List}
use vault_client_rs.Prelude.Text.{Text, codes}
use vault_client_rs.Json.{Json, string, bool, object, end, field}
use vault_client_rs.Client.{VaultClient}
use vault_client_rs.Effect.{Env, get, post, Method, World, M}
use vault_client_rs.Execute.{exec_with_data, exec_empty, exec_list}
use vault_client_rs.Wire.{Decode, below, named, unless_none, u64_json, json_itself}

pub record SshRoleRequest : Type 0 where
  pub key_type : Text
  pub default_user : Option Text
  pub allowed_users : Option Text
  pub allowed_domains : Option Text
  pub ttl : Option Text
  pub max_ttl : Option Text
  pub allowed_critical_options : Option Text
  pub allowed_extensions : Option Text
  pub default_extensions : Option Json
  pub allow_user_certificates : Option Bool
  pub allow_host_certificates : Option Bool
  pub allow_bare_domains : Option Bool
  pub allow_subdomains : Option Bool
  pub algorithm_signer : Option Text

unfoldable pub ssh_role_request_body : SshRoleRequest → Json
ssh_role_request_body p = object (
    field (codes "key_type") (string p.key_type) (
      unless_none string (codes "default_user") p.default_user (
        unless_none string (codes "allowed_users") p.allowed_users (
          unless_none string (codes "allowed_domains") p.allowed_domains (
            unless_none string (codes "ttl") p.ttl (
              unless_none string (codes "max_ttl") p.max_ttl (
                unless_none string (codes "allowed_critical_options") p.allowed_critical_options (
                  unless_none string (codes "allowed_extensions") p.allowed_extensions (
                    unless_none json_itself (codes "default_extensions") p.default_extensions (
                      unless_none bool (codes "allow_user_certificates") p.allow_user_certificates (
                        unless_none bool (codes "allow_host_certificates") p.allow_host_certificates
                          (unless_none bool (codes "allow_bare_domains") p.allow_bare_domains (
                            unless_none bool (codes "allow_subdomains") p.allow_subdomains (
                              unless_none string (codes "algorithm_signer") p.algorithm_signer
                                end))))))))))))))

pub record SshRole : Type 0 where
  pub key_type : Text
  pub default_user : Text
  pub allowed_users : Text
  pub ttl : Text
  pub max_ttl : Text
  pub allowed_critical_options : Text
  pub allowed_extensions : Text
  pub allow_user_certificates : Bool
  pub allow_host_certificates : Bool

pub record SshSignRequest : Type 0 where
  pub public_key : Text
  pub valid_principals : Option Text
  pub cert_type : Option Text
  pub ttl : Option Text
  pub critical_options : Option Json
  pub extensions : Option Json

unfoldable pub ssh_sign_request_body : SshSignRequest → Json
ssh_sign_request_body p = object (
    field (codes "public_key") (string p.public_key) (
      unless_none string (codes "valid_principals") p.valid_principals (
        unless_none string (codes "cert_type") p.cert_type (
          unless_none string (codes "ttl") p.ttl (
            unless_none json_itself (codes "critical_options") p.critical_options
              (unless_none json_itself (codes "extensions") p.extensions end))))))

pub record SshSignedKey : Type 0 where
  pub serial_number : Text
  pub signed_key : Text

pub record SshCaConfigRequest : Type 0 where
  pub generate_signing_key : Option Bool
  pub private_key : Option Text
  pub public_key : Option Text
  pub key_type : Option Text
  pub key_bits : Option ℕ

unfoldable pub ssh_ca_config_request_body : SshCaConfigRequest → Json
ssh_ca_config_request_body p = object (
    unless_none bool (codes "generate_signing_key") p.generate_signing_key (
      unless_none string (codes "private_key") p.private_key (
        unless_none string (codes "public_key") p.public_key (
          unless_none string (codes "key_type") p.key_type
            (unless_none u64_json (codes "key_bits") p.key_bits end)))))

pub record SshCaPublicKey : Type 0 where
  pub public_key : Text

pub record SshVerifyRequest : Type 0 where
  pub otp : Text

unfoldable pub ssh_verify_request_body : SshVerifyRequest → Json
ssh_verify_request_body p = object (field (codes "otp") (string p.otp) end)

pub record SshVerifyResponse : Type 0 where
  pub ip : Text
  pub username : Text

module _ (env : Env) (waiting : World → World) (c : VaultClient) (mount : Text) where
  unfoldable pub configure_ca : SshCaConfigRequest → M (Unit {0})
  configure_ca params =
      exec_empty env waiting c post (below mount "/config/ca")
        (some (ssh_ca_config_request_body params))

  unfoldable pub read_public_key : Decode SshCaPublicKey → M SshCaPublicKey
  read_public_key decode = exec_with_data env waiting c decode get (below mount "/config/ca") none

  unfoldable pub delete_ca : M (Unit {0})
  delete_ca = exec_empty env waiting c Method.delete (below mount "/config/ca") none

  unfoldable pub create_role : Text → SshRoleRequest → M (Unit {0})
  create_role name params =
      exec_empty env waiting c post (named mount "/roles/" name)
        (some (ssh_role_request_body params))

  unfoldable pub read_role : Decode SshRole → Text → M SshRole
  read_role decode name = exec_with_data env waiting c decode get (named mount "/roles/" name) none

  unfoldable pub delete_role : Text → M (Unit {0})
  delete_role name = exec_empty env waiting c Method.delete (named mount "/roles/" name) none

  unfoldable pub list_roles : M (List Text)
  list_roles = exec_list env waiting c (below mount "/roles")

  unfoldable pub sign_key : Decode SshSignedKey → Text → SshSignRequest → M SshSignedKey
  sign_key decode role params =
      exec_with_data env waiting c decode post (named mount "/sign/" role)
        (some (ssh_sign_request_body params))

  unfoldable pub verify_otp : Decode SshVerifyResponse → SshVerifyRequest → M SshVerifyResponse
  verify_otp decode params =
      exec_with_data env waiting c decode post (below mount "/verify")
        (some (ssh_verify_request_body params))
