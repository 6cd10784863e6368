-- ===== src/AuthAdmin/Oidc.antt =====
-- api/auth/oidc.rs, types/auth.rs: the Oidc auth handler, less its login, and its types.
use vault_client_rs.Prelude.{ℕ, Option, none, some, List, ◌++◌}
use vault_client_rs.Prelude.Text.{Text, codes}
use vault_client_rs.Json.{Json, string, object, end}
use vault_client_rs.EncodePath.{encode_path}
use vault_client_rs.Client.{VaultClient}
use vault_client_rs.Effect.{Env, get, post, Method, World, M}
use vault_client_rs.Execute.{exec_with_data, exec_empty, exec_list}
use vault_client_rs.Wire.{Decode, HashMap, unless_none, array_of, object_of}

pub record OidcConfigRequest : Type 0 where
  pub oidc_discovery_url : Option Text
  pub oidc_client_id : Option Text
  pub oidc_client_secret : Option Text
  pub jwt_validation_pubkeys : Option (List Text)
  pub bound_issuer : Option Text
  pub default_role : Option Text
  pub jwt_supported_algs : Option (List Text)

unfoldable pub oidc_config_request_body : OidcConfigRequest → Json
oidc_config_request_body p = object (
    unless_none string (codes "oidc_discovery_url") p.oidc_discovery_url (
      unless_none string (codes "oidc_client_id") p.oidc_client_id (
        unless_none string (codes "oidc_client_secret") p.oidc_client_secret (
          unless_none (array_of string) (codes "jwt_validation_pubkeys") p.jwt_validation_pubkeys (
            unless_none string (codes "bound_issuer") p.bound_issuer (
              unless_none string (codes "default_role") p.default_role (
                unless_none (array_of string) (codes "jwt_supported_algs") p.jwt_supported_algs
                  end)))))))

pub record OidcConfig : Type 0 where
  pub oidc_discovery_url : Option Text
  pub oidc_client_id : Option Text
  pub bound_issuer : Option Text
  pub default_role : Option Text
  pub jwt_supported_algs : List Text

pub record OidcRoleRequest : Type 0 where
  pub role_type : Option Text
  pub bound_audiences : Option (List Text)
  pub user_claim : Option Text
  pub bound_claims : Option (List (Text × Text))
  pub token_policies : Option (List Text)
  pub token_ttl : Option Text
  pub token_max_ttl : Option Text
  pub allowed_redirect_uris : Option (List Text)
  pub groups_claim : Option Text
  pub claim_mappings : Option (List (Text × Text))

unfoldable pub oidc_role_request_body : OidcRoleRequest → Json
oidc_role_request_body p = object (
    unless_none string (codes "role_type") p.role_type (
      unless_none (array_of string) (codes "bound_audiences") p.bound_audiences (
        unless_none string (codes "user_claim") p.user_claim (
          unless_none (object_of string) (codes "bound_claims") p.bound_claims (
            unless_none (array_of string) (codes "token_policies") p.token_policies (
              unless_none string (codes "token_ttl") p.token_ttl (
                unless_none string (codes "token_max_ttl") p.token_max_ttl (
                  unless_none (array_of string) (codes "allowed_redirect_uris")
                    p.allowed_redirect_uris
                    (unless_none string (codes "groups_claim") p.groups_claim (
                      unless_none (object_of string) (codes "claim_mappings") p.claim_mappings
                        end))))))))))

pub record OidcRoleInfo : Type 0 where
  pub role_type : Text
  pub bound_audiences : List Text
  pub user_claim : Text
  pub bound_claims : HashMap Text
  pub token_policies : List Text
  pub token_ttl : ℕ
  pub token_max_ttl : ℕ
  pub allowed_redirect_uris : List Text

module _ (env : Env) (waiting : World → World) (c : VaultClient) (mount : Text) where
  unfoldable pub configure : OidcConfigRequest → M (Unit {0})
  configure cfg =
      exec_empty env waiting c post (codes "auth/" ++ (mount ++ codes "/config"))
        (some (oidc_config_request_body cfg))

  unfoldable pub read_config : Decode OidcConfig → M OidcConfig
  read_config decode =
      exec_with_data env waiting c decode get (codes "auth/" ++ (mount ++ codes "/config")) none

  unfoldable pub create_role : Text → OidcRoleRequest → M (Unit {0})
  create_role name params =
      exec_empty env waiting c post
        (codes "auth/" ++ (mount ++ (codes "/role/" ++ encode_path name)))
        (some (oidc_role_request_body params))

  unfoldable pub read_role : Decode OidcRoleInfo → Text → M OidcRoleInfo
  read_role decode name =
      exec_with_data env waiting c decode get
        (codes "auth/" ++ (mount ++ (codes "/role/" ++ encode_path name))) none

  unfoldable pub delete_role : Text → M (Unit {0})
  delete_role name =
      exec_empty env waiting c Method.delete
        (codes "auth/" ++ (mount ++ (codes "/role/" ++ encode_path name))) none

  unfoldable pub list_roles : M (List Text)
  list_roles = exec_list env waiting c (codes "auth/" ++ (mount ++ codes "/role"))
