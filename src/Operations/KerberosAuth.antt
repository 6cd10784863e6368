-- ===== src/Operations/KerberosAuth.antt =====
-- api/traits.rs: `KerberosAuthOperations`, and its blocking form.
use vault_client_rs.Prelude.{Bool, List}
use vault_client_rs.Prelude.Text.{Text}
use vault_client_rs.VaultResponse.{AuthInfo}
use vault_client_rs.EncodePath.{encode_path}
use vault_client_rs.Client.{VaultClient}
use vault_client_rs.Effect.{Env, World, M}
use vault_client_rs.Wire.{Decode}
use vault_client_rs.Auth.{kerberos_login}
use vault_client_rs.Operations.{block_on}
use vault_client_rs.AuthAdmin.Kerberos
use vault_client_rs.AuthAdmin.Kerberos.{
  KerberosConfigRequest, KerberosConfig, KerberosLdapConfigRequest, KerberosLdapConfig,
  KerberosGroupRequest, KerberosGroup,
}

pub record KerberosAuthOperations (F : Type 0 → Type 0) : Type 0 where
  pub login : Text → F AuthInfo
  pub configure : KerberosConfigRequest → F (Unit {0})
  pub read_config : F KerberosConfig
  pub configure_ldap : KerberosLdapConfigRequest → F (Unit {0})
  pub read_ldap_config : F KerberosLdapConfig
  pub write_group : Text → KerberosGroupRequest → F (Unit {0})
  pub read_group : Text → F KerberosGroup
  pub delete_group : Text → F (Unit {0})
  pub list_groups : F (List Text)

-- The implementation by the handler, with the decoders of the responses.
unfoldable pub kerberos_auth_handler :
    (env : Env) (waiting : World → World) (c : VaultClient) (mount : Text)
    (read_kerberos_config : Decode KerberosConfig)
    (read_kerberos_ldap_config : Decode KerberosLdapConfig)
    (read_kerberos_group : Decode KerberosGroup)
    → KerberosAuthOperations M
kerberos_auth_handler env waiting c mount read_kerberos_config read_kerberos_ldap_config
      read_kerberos_group =
    record {
      login = kerberos_login env waiting c mount;
      configure = Kerberos.configure env waiting c (encode_path mount);
      read_config = Kerberos.read_config env waiting c (encode_path mount) read_kerberos_config;
      configure_ldap = Kerberos.configure_ldap env waiting c (encode_path mount);
      read_ldap_config =
          Kerberos.read_ldap_config env waiting c (encode_path mount) read_kerberos_ldap_config;
      write_group = Kerberos.write_group env waiting c (encode_path mount);
      read_group = Kerberos.read_group env waiting c (encode_path mount) read_kerberos_group;
      delete_group = Kerberos.delete_group env waiting c (encode_path mount);
      list_groups = Kerberos.list_groups env waiting c (encode_path mount);
    }

-- `KerberosAuthHandler` of blocking/mod.rs.
unfoldable pub blocking_kerberos_auth : Bool → KerberosAuthOperations M → KerberosAuthOperations M
unfolding block_on
blocking_kerberos_auth in_runtime o = record {
  login = λ a. block_on in_runtime (o.login a);
  configure = λ a. block_on in_runtime (o.configure a);
  read_config = block_on in_runtime o.read_config;
  configure_ldap = λ a. block_on in_runtime (o.configure_ldap a);
  read_ldap_config = block_on in_runtime o.read_ldap_config;
  write_group = λ a b. block_on in_runtime (o.write_group a b);
  read_group = λ a. block_on in_runtime (o.read_group a);
  delete_group = λ a. block_on in_runtime (o.delete_group a);
  list_groups = block_on in_runtime o.list_groups;
}
