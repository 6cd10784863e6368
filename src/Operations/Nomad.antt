-- ===== src/Operations/Nomad.antt =====
-- api/traits.rs: `NomadOperations`, and its blocking form.
use vault_client_rs.Prelude.{Bool, List}
use vault_client_rs.Prelude.Text.{Text}
use vault_client_rs.Client.{VaultClient}
use vault_client_rs.Effect.{Env, World, M}
use vault_client_rs.Wire.{Decode}
use vault_client_rs.Operations.{block_on}
use vault_client_rs.Engines.Nomad
use vault_client_rs.Engines.Nomad.{
  NomadConfigRequest, NomadConfig, NomadRoleRequest, NomadRole, NomadCredentials,
}

pub record NomadOperations (F : Type 0 → Type 0) : Type 0 where
  pub configure : NomadConfigRequest → F (Unit {0})
  pub read_config : F NomadConfig
  pub delete_config : F (Unit {0})
  pub create_role : Text → NomadRoleRequest → F (Unit {0})
  pub read_role : Text → F NomadRole
  pub delete_role : Text → F (Unit {0})
  pub list_roles : F (List Text)
  pub get_credentials : Text → F NomadCredentials

-- The implementation by the handler, with the decoders of the responses.
unfoldable pub nomad_handler :
    (env : Env) (waiting : World → World) (c : VaultClient) (mount : Text)
    (read_nomad_config : Decode NomadConfig) (read_nomad_role : Decode NomadRole)
    (read_nomad_credentials : Decode NomadCredentials)
    → NomadOperations M
nomad_handler env waiting c mount read_nomad_config read_nomad_role read_nomad_credentials =
    record {
      configure = Nomad.configure env waiting c mount;
      read_config = Nomad.read_config env waiting c mount read_nomad_config;
      delete_config = Nomad.delete_config env waiting c mount;
      create_role = Nomad.create_role env waiting c mount;
      read_role = Nomad.read_role env waiting c mount read_nomad_role;
      delete_role = Nomad.delete_role env waiting c mount;
      list_roles = Nomad.list_roles env waiting c mount;
      get_credentials = Nomad.get_credentials env waiting c mount read_nomad_credentials;
    }

-- `NomadHandler` of blocking/mod.rs.
unfoldable pub blocking_nomad : Bool → NomadOperations M → NomadOperations M
unfolding block_on
blocking_nomad in_runtime o = record {
  configure = λ a. block_on in_runtime (o.configure a);
  read_config = block_on in_runtime o.read_config;
  delete_config = block_on in_runtime o.delete_config;
  create_role = λ a b. block_on in_runtime (o.create_role a b);
  read_role = λ a. block_on in_runtime (o.read_role a);
  delete_role = λ a. block_on in_runtime (o.delete_role a);
  list_roles = block_on in_runtime o.list_roles;
  get_credentials = λ a. block_on in_runtime (o.get_credentials a);
}
