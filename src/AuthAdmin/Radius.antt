-- ===== src/AuthAdmin/Radius.antt =====
-- api/auth/radius.rs, types/auth.rs: the Radius auth handler, less its login, and its types.
use vault_client_rs.Prelude.{ℕ, Option, none, some, List, ◌++◌}
use vault_client_rs.Prelude.Text.{Text, codes}
use vault_client_rs.Json.{Json, string, object, end, field}
use vault_client_rs.EncodePath.{encode_path}
use vault_client_rs.Client.{VaultClient}
use vault_client_rs.Effect.{Env, get, post, Method, World, M}
use vault_client_rs.Execute.{exec_with_data, exec_empty, exec_list}
use vault_client_rs.Wire.{Decode, unless_none, u64_json, array_of}

pub record RadiusConfigRequest : Type 0 where
  pub host : Text
  pub secret : Text
  pub port : Option ℕ
  pub unregistered_user_policies : Option Text
  pub dial_timeout : Option ℕ
  pub read_timeout : Option ℕ
  pub nas_port : Option ℕ
  pub token_policies : Option (List Text)
  pub token_ttl : Option Text
  pub token_max_ttl : Option Text

unfoldable pub radius_config_request_body : RadiusConfigRequest → Json
radius_config_request_body p = object (
    field (codes "host") (string p.host) (
      field (codes "secret") (string p.secret) (
        unless_none u64_json (codes "port") p.port (
          unless_none string (codes "unregistered_user_policies") p.unregistered_user_policies (
            unless_none u64_json (codes "dial_timeout") p.dial_timeout (
              unless_none u64_json (codes "read_timeout") p.read_timeout (
                unless_none u64_json (codes "nas_port") p.nas_port (
                  unless_none (array_of string) (codes "token_policies") p.token_policies (
                    unless_none string (codes "token_ttl") p.token_ttl
                      (unless_none string (codes "token_max_ttl") p.token_max_ttl end))))))))))

pub record RadiusConfig : Type 0 where
  pub host : Text
  pub port : ℕ
  pub unregistered_user_policies : Text
  pub dial_timeout : ℕ
  pub read_timeout : ℕ
  pub nas_port : ℕ

pub record RadiusUserRequest : Type 0 where
  pub policies : Option (List Text)

unfoldable pub radius_user_request_body : RadiusUserRequest → Json
radius_user_request_body p =
    object (unless_none (array_of string) (codes "policies") p.policies end)

pub record RadiusUser : Type 0 where
  pub policies : List Text

module _ (env : Env) (waiting : World → World) (c : VaultClient) (mount : Text) where
  unfoldable pub configure : RadiusConfigRequest → M (Unit {0})
  configure cfg =
      exec_empty env waiting c post (codes "auth/" ++ (mount ++ codes "/config"))
        (some (radius_config_request_body cfg))

  unfoldable pub read_config : Decode RadiusConfig → M RadiusConfig
  read_config decode =
      exec_with_data env waiting c decode get (codes "auth/" ++ (mount ++ codes "/config")) none

  unfoldable pub write_user : Text → RadiusUserRequest → M (Unit {0})
  write_user username params =
      exec_empty env waiting c post
        (codes "auth/" ++ (mount ++ (codes "/users/" ++ encode_path username)))
        (some (radius_user_request_body params))

  unfoldable pub read_user : Decode RadiusUser → Text → M RadiusUser
  read_user decode username =
      exec_with_data env waiting c decode get
        (codes "auth/" ++ (mount ++ (codes "/users/" ++ encode_path username))) none

  unfoldable pub delete_user : Text → M (Unit {0})
  delete_user username =
      exec_empty env waiting c Method.delete
        (codes "auth/" ++ (mount ++ (codes "/users/" ++ encode_path username))) none

  unfoldable pub list_users : M (List Text)
  list_users = exec_list env waiting c (codes "auth/" ++ (mount ++ codes "/users"))
