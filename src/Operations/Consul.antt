-- ===== src/Operations/Consul.antt =====
-- api/traits.rs: `ConsulOperations`, and its blocking form.
use vault_client_rs.Prelude.{Bool, List}
use vault_client_rs.Prelude.Text.{Text}
use vault_client_rs.Client.{VaultClient}
use vault_client_rs.Effect.{Env, World, M}
use vault_client_rs.Wire.{Decode}
use vault_client_rs.Operations.{block_on}
use vault_client_rs.Engines.Consul
use vault_client_rs.Engines.Consul.{
  ConsulConfigRequest, ConsulConfig, ConsulRoleRequest, ConsulRole, ConsulCredentials,
}

pub record ConsulOperations (F : Type 0 → Type 0) : Type 0 where
  pub configure : ConsulConfigRequest → F (Unit {0})
  pub read_config : F ConsulConfig
  pub delete_config : F (Unit {0})
  pub create_role : Text → ConsulRoleRequest → F (Unit {0})
  pub read_role : Text → F ConsulRole
  pub delete_role : Text → F (Unit {0})
  pub list_roles : F (List Text)
  pub get_credentials : Text → F ConsulCredentials

-- The implementation by the handler, with the decoders of the responses.
unfoldable pub consul_handler :
    (env : Env) (waiting : World → World) (c : VaultClient) (mount : Text)
    (read_consul_config : Decode ConsulConfig) (read_consul_role : Decode ConsulRole)
    (read_consul_credentials : Decode ConsulCredentials)
    → ConsulOperations M
consul_handler env waiting c mount read_consul_config read_consul_role read_consul_credentials =
    record {
      configure = Consul.configure env waiting c mount;
      read_config = Consul.read_config env waiting c mount read_consul_config;
      delete_config = Consul.delete_config env waiting c mount;
      create_role = Consul.create_role env waiting c mount;
      read_role = Consul.read_role env waiting c mount read_consul_role;
      delete_role = Consul.delete_role env waiting c mount;
      list_roles = Consul.list_roles env waiting c mount;
      get_credentials = Consul.get_credentials env waiting c mount read_consul_credentials;
    }

-- `ConsulHandler` of blocking/mod.rs.
unfoldable pub blocking_consul : Bool → ConsulOperations M → ConsulOperations M
unfolding block_on
blocking_consul in_runtime o = record {
  configure = λ a. block_on in_runtime (o.configure a);
  read_config = block_on in_runtime o.read_config;
  delete_config = block_on in_runtime o.delete_config;
  create_role = λ a b. block_on in_runtime (o.create_role a b);
  read_role = λ a. block_on in_runtime (o.read_role a);
  delete_role = λ a. block_on in_runtime (o.delete_role a);
  list_roles = block_on in_runtime o.list_roles;
  get_credentials = λ a. block_on in_runtime (o.get_credentials a);
}
