-- ===== src/Engines/Database.antt =====
-- api/database.rs, types/database.rs: the Database handler, and its types.
use vault_client_rs.Prelude.{ℕ, Bool, Option, none, some, List}
use vault_client_rs.Prelude.Text.{Text, codes}
use vault_client_rs.Json.{Json, string, bool, object, end, field}
use vault_client_rs.Client.{VaultClient}
use vault_client_rs.Effect.{Env, get, post, Method, World, M}
use vault_client_rs.Execute.{exec_with_data, exec_empty, exec_list}
use vault_client_rs.Wire.{Decode, below, named, unless_none, u64_json, array_of}

pub record DatabaseConfigRequest : Type 0 where
  pub plugin_name : Text
  pub connection_url : Text
  pub allowed_roles : Option (List Text)
  pub username : Option Text
  pub password : Option Text
  pub max_open_connections : Option ℕ
  pub max_idle_connections : Option ℕ
  pub max_connection_lifetime : Option Text
  pub username_template : Option Text
  pub verify_connection : Option Bool

unfoldable pub database_config_request_body : DatabaseConfigRequest → Json
database_config_request_body p = object (
    field (codes "plugin_name") (string p.plugin_name) (
      field (codes "connection_url") (string p.connection_url) (
        unless_none (array_of string) (codes "allowed_roles") p.allowed_roles (
          unless_none string (codes "username") p.username (
            unless_none string (codes "password") p.password (
              unless_none u64_json (codes "max_open_connections") p.max_open_connections (
                unless_none u64_json (codes "max_idle_connections") p.max_idle_connections (
                  unless_none string (codes "max_connection_lifetime") p.max_connection_lifetime (
                    unless_none string (codes "username_template") p.username_template (
                      unless_none bool (codes "verify_connection") p.verify_connection end))))))))))

pub record DatabaseConfig : Type 0 where
  pub plugin_name : Text
  pub connection_details : Json
  pub allowed_roles : List Text

pub record DatabaseRoleRequest : Type 0 where
  pub db_name : Text
  pub creation_statements : Option (List Text)
  pub revocation_statements : Option (List Text)
  pub rollback_statements : Option (List Text)
  pub renew_statements : Option (List Text)
  pub default_ttl : Option Text
  pub max_ttl : Option Text

unfoldable pub database_role_request_body : DatabaseRoleRequest → Json
database_role_request_body p = object (
    field (codes "db_name") (string p.db_name) (
      unless_none (array_of string) (codes "creation_statements") p.creation_statements (
        unless_none (array_of string) (codes "revocation_statements") p.revocation_statements (
          unless_none (array_of string) (codes "rollback_statements") p.rollback_statements (
            unless_none (array_of string) (codes "renew_statements") p.renew_statements (
              unless_none string (codes "default_ttl") p.default_ttl
                (unless_none string (codes "max_ttl") p.max_ttl end)))))))

pub record DatabaseRole : Type 0 where
  pub db_name : Text
  pub creation_statements : List Text
  pub revocation_statements : List Text
  pub rollback_statements : List Text
  pub renew_statements : List Text
  pub default_ttl : ℕ
  pub max_ttl : ℕ

pub record DatabaseStaticRoleRequest : Type 0 where
  pub db_name : Text
  pub username : Text
  pub rotation_statements : Option (List Text)
  pub rotation_period : Option Text

unfoldable pub database_static_role_request_body : DatabaseStaticRoleRequest → Json
database_static_role_request_body p = object (
    field (codes "db_name") (string p.db_name) (
      field (codes "username") (string p.username) (
        unless_none (array_of string) (codes "rotation_statements") p.rotation_statements
          (unless_none string (codes "rotation_period") p.rotation_period end))))

pub record DatabaseStaticRole : Type 0 where
  pub db_name : Text
  pub username : Text
  pub rotation_statements : List Text
  pub rotation_period : ℕ
  pub last_vault_rotation : Option Text

pub record DatabaseCredentials : Type 0 where
  pub username : Text
  pub password : Text

pub record DatabaseStaticCredentials : Type 0 where
  pub username : Text
  pub password : Text
  pub last_vault_rotation : Option Text
  pub rotation_period : ℕ
  pub ttl : ℕ

module _ (env : Env) (waiting : World → World) (c : VaultClient) (mount : Text) where
  unfoldable pub configure : Text → DatabaseConfigRequest → M (Unit {0})
  configure name params =
      exec_empty env waiting c post (named mount "/config/" name)
        (some (database_config_request_body params))

  unfoldable pub read_config : Decode DatabaseConfig → Text → M DatabaseConfig
  read_config decode name =
      exec_with_data env waiting c decode get (named mount "/config/" name) none

  unfoldable pub delete_config : Text → M (Unit {0})
  delete_config name = exec_empty env waiting c Method.delete (named mount "/config/" name) none

  unfoldable pub list_connections : M (List Text)
  list_connections = exec_list env waiting c (below mount "/config")

  unfoldable pub reset_connection : Text → M (Unit {0})
  reset_connection name = exec_empty env waiting c post (named mount "/reset/" name) none

  unfoldable pub create_role : Text → DatabaseRoleRequest → M (Unit {0})
  create_role name params =
      exec_empty env waiting c post (named mount "/roles/" name)
        (some (database_role_request_body params))

  unfoldable pub read_role : Decode DatabaseRole → Text → M DatabaseRole
  read_role decode name = exec_with_data env waiting c decode get (named mount "/roles/" name) none

  unfoldable pub delete_role : Text → M (Unit {0})
  delete_role name = exec_empty env waiting c Method.delete (named mount "/roles/" name) none

  unfoldable pub list_roles : M (List Text)
  list_roles = exec_list env waiting c (below mount "/roles")

  unfoldable pub get_credentials : Decode DatabaseCredentials → Text → M DatabaseCredentials
  get_credentials decode role =
      exec_with_data env waiting c decode get (named mount "/creds/" role) none

  unfoldable pub create_static_role : Text → DatabaseStaticRoleRequest → M (Unit {0})
  create_static_role name params =
      exec_empty env waiting c post (named mount "/static-roles/" name)
        (some (database_static_role_request_body params))

  unfoldable pub read_static_role : Decode DatabaseStaticRole → Text → M DatabaseStaticRole
  read_static_role decode name =
      exec_with_data env waiting c decode get (named mount "/static-roles/" name) none

  unfoldable pub delete_static_role : Text → M (Unit {0})
  delete_static_role name =
      exec_empty env waiting c Method.delete (named mount "/static-roles/" name) none

  unfoldable pub list_static_roles : M (List Text)
  list_static_roles = exec_list env waiting c (below mount "/static-roles")

  unfoldable pub get_static_credentials :
      Decode DatabaseStaticCredentials → Text → M DatabaseStaticCredentials
  get_static_credentials decode name =
      exec_with_data env waiting c decode get (named mount "/static-creds/" name) none

  unfoldable pub rotate_static_role : Text → M (Unit {0})
  rotate_static_role name = exec_empty env waiting c post (named mount "/rotate-role/" name) none
