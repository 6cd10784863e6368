-- ===== src/AuthAdmin/Approle.antt =====
-- api/auth/approle.rs, types/auth.rs: the Approle auth handler, less its login, and its types.
use vault_client_rs.Prelude.{ℕ, Bool, Option, none, some, List, ◌++◌}
use vault_client_rs.Prelude.Text.{Text, codes}
use vault_client_rs.Json.{Json, string, bool, object, end}
use vault_client_rs.EncodePath.{encode_path}
use vault_client_rs.Client.{VaultClient}
use vault_client_rs.Effect.{Env, get, post, Method, World, M, pure, ◌>>=◌}
use vault_client_rs.Execute.{exec_with_data, exec_empty, exec_list}
use vault_client_rs.Wire.{Decode, named_under, unless_none, u64_json, member, array_of}

pub record AppRoleCreateRequest : Type 0 where
  pub bind_secret_id : Option Bool
  pub secret_id_bound_cidrs : Option (List Text)
  pub token_bound_cidrs : Option (List Text)
  pub token_policies : Option (List Text)
  pub token_ttl : Option Text
  pub token_max_ttl : Option Text
  pub token_num_uses : Option ℕ
  pub token_type : Option Text

unfoldable pub app_role_create_request_body : AppRoleCreateRequest → Json
app_role_create_request_body p = object (
    unless_none bool (codes "bind_secret_id") p.bind_secret_id (
      unless_none (array_of string) (codes "secret_id_bound_cidrs") p.secret_id_bound_cidrs (
        unless_none (array_of string) (codes "token_bound_cidrs") p.token_bound_cidrs (
          unless_none (array_of string) (codes "token_policies") p.token_policies (
            unless_none string (codes "token_ttl") p.token_ttl (
              unless_none string (codes "token_max_ttl") p.token_max_ttl (
                unless_none u64_json (codes "token_num_uses") p.token_num_uses
                  (unless_none string (codes "token_type") p.token_type end))))))))

pub record AppRoleInfo : Type 0 where
  pub bind_secret_id : Bool
  pub secret_id_bound_cidrs : List Text
  pub token_bound_cidrs : List Text
  pub token_policies : List Text
  pub token_ttl : ℕ
  pub token_max_ttl : ℕ
  pub token_num_uses : ℕ
  pub token_type : Text

pub record AppRoleRoleIdResponse : Type 0 where
  pub role_id : Text

pub record AppRoleSecretIdResponse : Type 0 where
  pub secret_id : Text
  pub secret_id_accessor : Text
  pub secret_id_num_uses : ℕ
  pub secret_id_ttl : ℕ

module _ (env : Env) (waiting : World → World) (c : VaultClient) (mount : Text) where
  unfoldable pub create_role : Text → AppRoleCreateRequest → M (Unit {0})
  create_role name params =
      exec_empty env waiting c post
        (codes "auth/" ++ (mount ++ (codes "/role/" ++ encode_path name)))
        (some (app_role_create_request_body params))

  unfoldable pub read_role : Decode AppRoleInfo → Text → M AppRoleInfo
  read_role decode name =
      exec_with_data env waiting c decode get
        (codes "auth/" ++ (mount ++ (codes "/role/" ++ encode_path name))) none

  unfoldable pub delete_role : Text → M (Unit {0})
  delete_role name =
      exec_empty env waiting c Method.delete
        (codes "auth/" ++ (mount ++ (codes "/role/" ++ encode_path name))) none

  unfoldable pub list_roles : M (List Text)
  list_roles = exec_list env waiting c (codes "auth/" ++ (mount ++ codes "/role"))

  unfoldable pub read_role_id : Decode AppRoleRoleIdResponse → Text → M Text
  read_role_id decode name w =
      (do
        resp ←
            exec_with_data env waiting c decode get
              (codes "auth/" ++ (named_under mount "/role/" name "/role-id")) none
        pure resp.role_id)
        w

  unfoldable pub generate_secret_id :
      Decode AppRoleSecretIdResponse → Text → M AppRoleSecretIdResponse
  generate_secret_id decode name =
      exec_with_data env waiting c decode post
        (codes "auth/" ++ (named_under mount "/role/" name "/secret-id")) none

  unfoldable pub destroy_secret_id : Text → Text → M (Unit {0})
  destroy_secret_id name secret_id =
      exec_empty env waiting c post
        (codes "auth/" ++ (named_under mount "/role/" name "/secret-id/destroy"))
        (some (object (member "secret_id" secret_id end)))
