-- ===== src/AuthAdmin/Cert.antt =====
-- api/auth/cert.rs, types/auth.rs: the Cert auth handler, less its login, and its types.
use vault_client_rs.Prelude.{ℕ, Option, none, some, List, ◌++◌}
use vault_client_rs.Prelude.Text.{Text, codes}
use vault_client_rs.Json.{Json, string, object, end, field}
use vault_client_rs.EncodePath.{encode_path}
use vault_client_rs.Client.{VaultClient}
use vault_client_rs.Effect.{Env, get, post, Method, World, M}
use vault_client_rs.Execute.{exec_with_data, exec_empty, exec_list}
use vault_client_rs.Wire.{Decode, unless_none, array_of}

pub record CertRoleRequest : Type 0 where
  pub certificate : Text
  pub allowed_common_names : Option (List Text)
  pub allowed_dns_sans : Option (List Text)
  pub allowed_uri_sans : Option (List Text)
  pub required_extensions : Option (List Text)
  pub token_policies : Option (List Text)
  pub token_ttl : Option Text
  pub token_max_ttl : Option Text
  pub display_name : Option Text

unfoldable pub cert_role_request_body : CertRoleRequest → Json
cert_role_request_body p = object (
    field (codes "certificate") (string p.certificate) (
      unless_none (array_of string) (codes "allowed_common_names") p.allowed_common_names (
        unless_none (array_of string) (codes "allowed_dns_sans") p.allowed_dns_sans (
          unless_none (array_of string) (codes "allowed_uri_sans") p.allowed_uri_sans (
            unless_none (array_of string) (codes "required_extensions") p.required_extensions (
              unless_none (array_of string) (codes "token_policies") p.token_policies (
                unless_none string (codes "token_ttl") p.token_ttl (
                  unless_none string (codes "token_max_ttl") p.token_max_ttl
                    (unless_none string (codes "display_name") p.display_name end)))))))))

pub record CertRoleInfo : Type 0 where
  pub certificate : Text
  pub allowed_common_names : List Text
  pub allowed_dns_sans : List Text
  pub token_policies : List Text
  pub token_ttl : ℕ
  pub token_max_ttl : ℕ
  pub display_name : Text

module _ (env : Env) (waiting : World → World) (c : VaultClient) (mount : Text) where
  unfoldable pub create_role : Text → CertRoleRequest → M (Unit {0})
  create_role name params =
      exec_empty env waiting c post
        (codes "auth/" ++ (mount ++ (codes "/certs/" ++ encode_path name)))
        (some (cert_role_request_body params))

  unfoldable pub read_role : Decode CertRoleInfo → Text → M CertRoleInfo
  read_role decode name =
      exec_with_data env waiting c decode get
        (codes "auth/" ++ (mount ++ (codes "/certs/" ++ encode_path name))) none

  unfoldable pub delete_role : Text → M (Unit {0})
  delete_role name =
      exec_empty env waiting c Method.delete
        (codes "auth/" ++ (mount ++ (codes "/certs/" ++ encode_path name))) none

  unfoldable pub list_roles : M (List Text)
  list_roles = exec_list env waiting c (codes "auth/" ++ (mount ++ codes "/certs"))
