-- ===== src/Operations/LdapAuth.antt =====
-- api/traits.rs: `LdapAuthOperations`, and its blocking form.
use vault_client_rs.Prelude.{Bool, List}
use vault_client_rs.Prelude.Text.{Text}
use vault_client_rs.VaultResponse.{AuthInfo}
use vault_client_rs.EncodePath.{encode_path}
use vault_client_rs.Client.{VaultClient}
use vault_client_rs.Effect.{Env, World, M}
use vault_client_rs.Wire.{Decode}
use vault_client_rs.Auth.{password_login}
use vault_client_rs.Operations.{block_on}
use vault_client_rs.AuthAdmin.Ldap
use vault_client_rs.AuthAdmin.Ldap.{
  LdapConfigRequest, LdapConfig, LdapGroupRequest, LdapGroup, LdapUserRequest, LdapUser,
}

pub record LdapAuthOperations (F : Type 0 → Type 0) : Type 0 where
  pub login : Text → Text → F AuthInfo
  pub configure : LdapConfigRequest → F (Unit {0})
  pub read_config : F LdapConfig
  pub write_group : Text → LdapGroupRequest → F (Unit {0})
  pub read_group : Text → F LdapGroup
  pub delete_group : Text → F (Unit {0})
  pub list_groups : F (List Text)
  pub write_user : Text → LdapUserRequest → F (Unit {0})
  pub read_user : Text → F LdapUser
  pub delete_user : Text → F (Unit {0})
  pub list_users : F (List Text)

-- The implementation by the handler, with the decoders of the responses.
unfoldable pub ldap_auth_handler :
    (env : Env) (waiting : World → World) (c : VaultClient) (mount : Text)
    (read_ldap_config : Decode LdapConfig) (read_ldap_group : Decode LdapGroup)
    (read_ldap_user : Decode LdapUser)
    → LdapAuthOperations M
ldap_auth_handler env waiting c mount read_ldap_config read_ldap_group read_ldap_user = record {
  login = password_login env waiting c mount;
  configure = Ldap.configure env waiting c (encode_path mount);
  read_config = Ldap.read_config env waiting c (encode_path mount) read_ldap_config;
  write_group = Ldap.write_group env waiting c (encode_path mount);
  read_group = Ldap.read_group env waiting c (encode_path mount) read_ldap_group;
  delete_group = Ldap.delete_group env waiting c (encode_path mount);
  list_groups = Ldap.list_groups env waiting c (encode_path mount);
  write_user = Ldap.write_user env waiting c (encode_path mount);
  read_user = Ldap.read_user env waiting c (encode_path mount) read_ldap_user;
  delete_user = Ldap.delete_user env waiting c (encode_path mount);
  list_users = Ldap.list_users env waiting c (encode_path mount);
}

-- `LdapAuthHandler` of blocking/mod.rs.
unfoldable pub blocking_ldap_auth : Bool → LdapAuthOperations M → LdapAuthOperations M
unfolding block_on
blocking_ldap_auth in_runtime o = record {
  login = λ a b. block_on in_runtime (o.login a b);
  configure = λ a. block_on in_runtime (o.configure a);
  read_config = block_on in_runtime o.read_config;
  write_group = λ a b. block_on in_runtime (o.write_group a b);
  read_group = λ a. block_on in_runtime (o.read_group a);
  delete_group = λ a. block_on in_runtime (o.delete_group a);
  list_groups = block_on in_runtime o.list_groups;
  write_user = λ a b. block_on in_runtime (o.write_user a b);
  read_user = λ a. block_on in_runtime (o.read_user a);
  delete_user = λ a. block_on in_runtime (o.delete_user a);
  list_users = block_on in_runtime o.list_users;
}
