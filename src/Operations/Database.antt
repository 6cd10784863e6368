-- ===== src/Operations/Database.antt =====
-- api/traits.rs: `DatabaseOperations`, and its blocking form.
use vault_client_rs.Prelude.{Bool, List}
use vault_client_rs.Prelude.Text.{Text}
use vault_client_rs.Client.{VaultClient}
use vault_client_rs.Effect.{Env, World, M}
use vault_client_rs.Wire.{Decode}
use vault_client_rs.Operations.{block_on}
use vault_client_rs.Engines.Database
use vault_client_rs.Engines.Database.{
  DatabaseConfigRequest, DatabaseConfig, DatabaseRoleRequest, DatabaseRole,
  DatabaseStaticRoleRequest, DatabaseStaticRole, DatabaseCredentials, DatabaseStaticCredentials,
}

pub record DatabaseOperations (F : Type 0 → Type 0) : Type 0 where
  pub configure : Text → DatabaseConfigRequest → F (Unit {0})
  pub read_config : Text → F DatabaseConfig
  pub delete_config : Text → F (Unit {0})
  pub list_connections : F (List Text)
  pub reset_connection : Text → F (Unit {0})
  pub create_role : Text → DatabaseRoleRequest → F (Unit {0})
  pub read_role : Text → F DatabaseRole
  pub delete_role : Text → F (Unit {0})
  pub list_roles : F (List Text)
  pub get_credentials : Text → F DatabaseCredentials
  pub create_static_role : Text → DatabaseStaticRoleRequest → F (Unit {0})
  pub read_static_role : Text → F DatabaseStaticRole
  pub delete_static_role : Text → F (Unit {0})
  pub list_static_roles : F (List Text)
  pub get_static_credentials : Text → F DatabaseStaticCredentials
  pub rotate_static_role : Text → F (Unit {0})

-- The implementation by the handler, with the decoders of the responses.
unfoldable pub database_handler :
    (env : Env) (waiting : World → World) (c : VaultClient) (mount : Text)
    (read_database_config : Decode DatabaseConfig) (read_database_role : Decode DatabaseRole)
    (read_database_credentials : Decode DatabaseCredentials)
    (read_database_static_role : Decode DatabaseStaticRole)
    (read_database_static_credentials : Decode DatabaseStaticCredentials)
    → DatabaseOperations M
database_handler env waiting c mount read_database_config read_database_role
      read_database_credentials read_database_static_role read_database_static_credentials =
    record {
      configure = Database.configure env waiting c mount;
      read_config = Database.read_config env waiting c mount read_database_config;
      delete_config = Database.delete_config env waiting c mount;
      list_connections = Database.list_connections env waiting c mount;
      reset_connection = Database.reset_connection env waiting c mount;
      create_role = Database.create_role env waiting c mount;
      read_role = Database.read_role env waiting c mount read_database_role;
      delete_role = Database.delete_role env waiting c mount;
      list_roles = Database.list_roles env waiting c mount;
      get_credentials = Database.get_credentials env waiting c mount read_database_credentials;
      create_static_role = Database.create_static_role env waiting c mount;
      read_static_role = Database.read_static_role env waiting c mount read_database_static_role;
      delete_static_role = Database.delete_static_role env waiting c mount;
      list_static_roles = Database.list_static_roles env waiting c mount;
      get_static_credentials =
          Database.get_static_credentials env waiting c mount read_database_static_credentials;
      rotate_static_role = Database.rotate_static_role env waiting c mount;
    }

-- `DatabaseHandler` of blocking/mod.rs.
unfoldable pub blocking_database : Bool → DatabaseOperations M → DatabaseOperations M
unfolding block_on
blocking_database in_runtime o = record {
  configure = λ a b. block_on in_runtime (o.configure a b);
  read_config = λ a. block_on in_runtime (o.read_config a);
  delete_config = λ a. block_on in_runtime (o.delete_config a);
  list_connections = block_on in_runtime o.list_connections;
  reset_connection = λ a. block_on in_runtime (o.reset_connection a);
  create_role = λ a b. block_on in_runtime (o.create_role a b);
  read_role = λ a. block_on in_runtime (o.read_role a);
  delete_role = λ a. block_on in_runtime (o.delete_role a);
  list_roles = block_on in_runtime o.list_roles;
  get_credentials = λ a. block_on in_runtime (o.get_credentials a);
  create_static_role = λ a b. block_on in_runtime (o.create_static_role a b);
  read_static_role = λ a. block_on in_runtime (o.read_static_role a);
  delete_static_role = λ a. block_on in_runtime (o.delete_static_role a);
  list_static_roles = block_on in_runtime o.list_static_roles;
  get_static_credentials = λ a. block_on in_runtime (o.get_static_credentials a);
  rotate_static_role = λ a. block_on in_runtime (o.rotate_static_role a);
}
