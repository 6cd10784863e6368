-- ===== src/Operations/CertAuth.antt =====
-- api/traits.rs: `CertAuthOperations`, and its blocking form.
use vault_client_rs.Prelude.{Bool, Option, List}
use vault_client_rs.Prelude.Text.{Text}
use vault_client_rs.VaultResponse.{AuthInfo}
use vault_client_rs.EncodePath.{encode_path}
use vault_client_rs.Client.{VaultClient}
use vault_client_rs.Effect.{Env, World, M}
use vault_client_rs.Wire.{Decode}
use vault_client_rs.Auth.{cert_login}
use vault_client_rs.Operations.{block_on}
use vault_client_rs.AuthAdmin.Cert
use vault_client_rs.AuthAdmin.Cert.{CertRoleRequest, CertRoleInfo}

pub record CertAuthOperations (F : Type 0 → Type 0) : Type 0 where
  pub login : Option Text → F AuthInfo
  pub create_role : Text → CertRoleRequest → F (Unit {0})
  pub read_role : Text → F CertRoleInfo
  pub delete_role : Text → F (Unit {0})
  pub list_roles : F (List Text)

-- The implementation by the handler, with the decoders of the responses.
unfoldable pub cert_auth_handler :
    (env : Env) (waiting : World → World) (c : VaultClient) (mount : Text)
    (read_cert_role_info : Decode CertRoleInfo)
    → CertAuthOperations M
cert_auth_handler env waiting c mount read_cert_role_info = record {
  login = cert_login env waiting c mount;
  create_role = Cert.create_role env waiting c (encode_path mount);
  read_role = Cert.read_role env waiting c (encode_path mount) read_cert_role_info;
  delete_role = Cert.delete_role env waiting c (encode_path mount);
  list_roles = Cert.list_roles env waiting c (encode_path mount);
}

-- `CertAuthHandler` of blocking/mod.rs.
unfoldable pub blocking_cert_auth : Bool → CertAuthOperations M → CertAuthOperations M
unfolding block_on
blocking_cert_auth in_runtime o = record {
  login = λ a. block_on in_runtime (o.login a);
  create_role = λ a b. block_on in_runtime (o.create_role a b);
  read_role = λ a. block_on in_runtime (o.read_role a);
  delete_role = λ a. block_on in_runtime (o.delete_role a);
  list_roles = block_on in_runtime o.list_roles;
}
