-- ===== src/AuthAdmin/Userpass.antt =====
-- api/auth/userpass.rs, types/auth.rs: the Userpass auth handler, less its login, and its types.
use vault_client_rs.Prelude.{ℕ, Option, none, some, List, ◌++◌}
use vault_client_rs.Prelude.Text.{Text, codes}
use vault_client_rs.Json.{Json, string, object, end}
use vault_client_rs.EncodePath.{encode_path}
use vault_client_rs.Client.{VaultClient}
use vault_client_rs.Effect.{Env, get, post, Method, World, M}
use vault_client_rs.Execute.{exec_with_data, exec_empty, exec_list}
use vault_client_rs.Wire.{Decode, named_under, unless_none, u64_json, member, array_of}

pub record UserpassUserRequest : Type 0 where
  pub password : Option Text
  pub token_policies : Option (List Text)
  pub token_ttl : Option Text
  pub token_max_ttl : Option Text
  pub token_bound_cidrs : Option (List Text)
  pub token_num_uses : Option ℕ

unfoldable pub userpass_user_request_body : UserpassUserRequest → Json
userpass_user_request_body p = object (
    unless_none string (codes "password") p.password (
      unless_none (array_of string) (codes "token_policies") p.token_policies (
        unless_none string (codes "token_ttl") p.token_ttl (
          unless_none string (codes "token_max_ttl") p.token_max_ttl (
            unless_none (array_of string) (codes "token_bound_cidrs") p.token_bound_cidrs
              (unless_none u64_json (codes "token_num_uses") p.token_num_uses end))))))

pub record UserpassUserInfo : Type 0 where
  pub token_policies : List Text
  pub token_ttl : ℕ
  pub token_max_ttl : ℕ
  pub token_bound_cidrs : List Text
  pub token_num_uses : ℕ

module _ (env : Env) (waiting : World → World) (c : VaultClient) (mount : Text) where
  unfoldable pub create_user : Text → UserpassUserRequest → M (Unit {0})
  create_user username params =
      exec_empty env waiting c post
        (codes "auth/" ++ (mount ++ (codes "/users/" ++ encode_path username)))
        (some (userpass_user_request_body params))

  unfoldable pub read_user : Decode UserpassUserInfo → Text → M UserpassUserInfo
  read_user decode username =
      exec_with_data env waiting c decode get
        (codes "auth/" ++ (mount ++ (codes "/users/" ++ encode_path username))) none

  unfoldable pub delete_user : Text → M (Unit {0})
  delete_user username =
      exec_empty env waiting c Method.delete
        (codes "auth/" ++ (mount ++ (codes "/users/" ++ encode_path username))) none

  unfoldable pub list_users : M (List Text)
  list_users = exec_list env waiting c (codes "auth/" ++ (mount ++ codes "/users"))

  unfoldable pub update_password : Text → Text → M (Unit {0})
  update_password username password =
      exec_empty env waiting c post
        (codes "auth/" ++ (named_under mount "/users/" username "/password"))
        (some (object (member "password" password end)))
