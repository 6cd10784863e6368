-- ===== src/Operations/Rabbitmq.antt =====
-- api/traits.rs: `RabbitmqOperations`, and its blocking form.
use vault_client_rs.Prelude.{Bool, List}
use vault_client_rs.Prelude.Text.{Text}
use vault_client_rs.Client.{VaultClient}
use vault_client_rs.Effect.{Env, World, M}
use vault_client_rs.Wire.{Decode}
use vault_client_rs.Operations.{block_on}
use vault_client_rs.Engines.Rabbitmq
use vault_client_rs.Engines.Rabbitmq.{
  RabbitmqConfigRequest, RabbitmqRoleRequest, RabbitmqRole, RabbitmqCredentials,
}

pub record RabbitmqOperations (F : Type 0 → Type 0) : Type 0 where
  pub configure : RabbitmqConfigRequest → F (Unit {0})
  pub configure_lease : Text → Text → F (Unit {0})
  pub create_role : Text → RabbitmqRoleRequest → F (Unit {0})
  pub read_role : Text → F RabbitmqRole
  pub delete_role : Text → F (Unit {0})
  pub list_roles : F (List Text)
  pub get_credentials : Text → F RabbitmqCredentials

-- The implementation by the handler, with the decoders of the responses.
unfoldable pub rabbitmq_handler :
    (env : Env) (waiting : World → World) (c : VaultClient) (mount : Text)
    (read_rabbitmq_role : Decode RabbitmqRole)
    (read_rabbitmq_credentials : Decode RabbitmqCredentials)
    → RabbitmqOperations M
rabbitmq_handler env waiting c mount read_rabbitmq_role read_rabbitmq_credentials = record {
  configure = Rabbitmq.configure env waiting c mount;
  configure_lease = Rabbitmq.configure_lease env waiting c mount;
  create_role = Rabbitmq.create_role env waiting c mount;
  read_role = Rabbitmq.read_role env waiting c mount read_rabbitmq_role;
  delete_role = Rabbitmq.delete_role env waiting c mount;
  list_roles = Rabbitmq.list_roles env waiting c mount;
  get_credentials = Rabbitmq.get_credentials env waiting c mount read_rabbitmq_credentials;
}

-- `RabbitmqHandler` of blocking/mod.rs.
unfoldable pub blocking_rabbitmq : Bool → RabbitmqOperations M → RabbitmqOperations M
unfolding block_on
blocking_rabbitmq in_runtime o = record {
  configure = λ a. block_on in_runtime (o.configure a);
  configure_lease = λ a b. block_on in_runtime (o.configure_lease a b);
  create_role = λ a b. block_on in_runtime (o.create_role a b);
  read_role = λ a. block_on in_runtime (o.read_role a);
  delete_role = λ a. block_on in_runtime (o.delete_role a);
  list_roles = block_on in_runtime o.list_roles;
  get_credentials = λ a. block_on in_runtime (o.get_credentials a);
}
