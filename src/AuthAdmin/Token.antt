-- ===== src/AuthAdmin/Token.antt =====
-- api/auth/token.rs, types/auth.rs: the Token auth handler, less its login, and its types.
pub mod Stored
use vault_client_rs.Prelude.{ℕ, Bool, Option, none, some, List}
use vault_client_rs.Prelude.Text.{Text, codes}
use vault_client_rs.Json.{Json, string, bool, object, end}
use vault_client_rs.VaultError.{empty_response}
use vault_client_rs.VaultResponse.{AuthInfo}
use vault_client_rs.Client.{VaultClient}
use vault_client_rs.Token.{update_token_from_auth}
use vault_client_rs.Effect.{Env, get, post, World, M, pure, ok_or, ◌>>=◌, ◌>>◌}
use vault_client_rs.Execute.{exec_with_data, exec_with_auth, exec_empty, exec_list}
use vault_client_rs.Wire.{Decode, HashMap, unless_none, u64_json, member, array_of, object_of}

pub record TokenCreateRequest : Type 0 where
  pub id : Option Text
  pub policies : Option (List Text)
  pub meta : Option (List (Text × Text))
  pub no_parent : Option Bool
  pub no_default_policy : Option Bool
  pub renewable : Option Bool
  pub ttl : Option Text
  pub explicit_max_ttl : Option Text
  pub display_name : Option Text
  pub num_uses : Option ℕ
  pub period : Option Text
  pub entity_alias : Option Text

unfoldable pub token_create_request_body : TokenCreateRequest → Json
token_create_request_body p = object (
    unless_none string (codes "id") p.id (
      unless_none (array_of string) (codes "policies") p.policies (
        unless_none (object_of string) (codes "meta") p.meta (
          unless_none bool (codes "no_parent") p.no_parent (
            unless_none bool (codes "no_default_policy") p.no_default_policy (
              unless_none bool (codes "renewable") p.renewable (
                unless_none string (codes "ttl") p.ttl (
                  unless_none string (codes "explicit_max_ttl") p.explicit_max_ttl (
                    unless_none string (codes "display_name") p.display_name (
                      unless_none u64_json (codes "num_uses") p.num_uses (
                        unless_none string (codes "period") p.period
                          (unless_none string (codes "entity_alias") p.entity_alias end))))))))))))

pub record TokenLookupResponse : Type 0 where
  pub accessor : Text
  pub creation_time : ℕ
  pub creation_ttl : ℕ
  pub display_name : Text
  pub entity_id : Text
  pub expire_time : Option Text
  pub explicit_max_ttl : ℕ
  pub id : Text
  pub issue_time : Text
  pub meta : Option (HashMap Text)
  pub num_uses : ℕ
  pub orphan : Bool
  pub path : Text
  pub policies : List Text
  pub renewable : Bool
  pub ttl : ℕ
  pub token_type : Text

abbrev pub increment_body : Option Text → Option Json
increment_body none = none
increment_body (some i) = some (object (member "increment" i end))

module _ (env : Env) (waiting : World → World) (c : VaultClient) where
  unfoldable pub lookup_self : Decode TokenLookupResponse → M TokenLookupResponse
  lookup_self decode = exec_with_data env waiting c decode get (codes "auth/token/lookup-self") none

  unfoldable pub lookup : Decode TokenLookupResponse → Text → M TokenLookupResponse
  lookup decode token =
      exec_with_data env waiting c decode post (codes "auth/token/lookup")
        (some (object (member "token" token end)))

  unfoldable pub renew_self : Option Text → M AuthInfo
  renew_self increment w =
      (do
        resp ←
            exec_with_auth env waiting c env.json_value post (codes "auth/token/renew-self")
              (increment_body increment)
        auth ← ok_or resp.auth empty_response
        update_token_from_auth c auth
        pure auth)
        w

  unfoldable pub create : TokenCreateRequest → M AuthInfo
  create params w =
      (do
        resp ←
            exec_with_auth env waiting c env.json_value post (codes "auth/token/create")
              (some (token_create_request_body params))
        ok_or resp.auth empty_response)
        w

  unfoldable pub create_orphan : TokenCreateRequest → M AuthInfo
  create_orphan params w =
      (do
        resp ←
            exec_with_auth env waiting c env.json_value post (codes "auth/token/create-orphan")
              (some (token_create_request_body params))
        ok_or resp.auth empty_response)
        w

  unfoldable pub revoke : Text → M (Unit {0})
  revoke token =
      exec_empty env waiting c post (codes "auth/token/revoke")
        (some (object (member "token" token end)))

  unfoldable pub revoke_self : M (Unit {0})
  revoke_self = exec_empty env waiting c post (codes "auth/token/revoke-self") none

  unfoldable pub revoke_accessor : Text → M (Unit {0})
  revoke_accessor accessor =
      exec_empty env waiting c post (codes "auth/token/revoke-accessor")
        (some (object (member "accessor" accessor end)))

  unfoldable pub list_accessors : M (List Text)
  list_accessors = exec_list env waiting c (codes "auth/token/accessors")
