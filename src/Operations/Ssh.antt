-- ===== src/Operations/Ssh.antt =====
-- api/traits.rs: `SshOperations`, and its blocking form.
use vault_client_rs.Prelude.{Bool, List}
use vault_client_rs.Prelude.Text.{Text}
use vault_client_rs.Client.{VaultClient}
use vault_client_rs.Effect.{Env, World, M}
use vault_client_rs.Wire.{Decode}
use vault_client_rs.Operations.{block_on}
use vault_client_rs.Engines.Ssh
use vault_client_rs.Engines.Ssh.{
  SshRoleRequest, SshRole, SshSignRequest, SshSignedKey, SshCaConfigRequest, SshCaPublicKey,
  SshVerifyRequest, SshVerifyResponse,
}

pub record SshOperations (F : Type 0 → Type 0) : Type 0 where
  pub configure_ca : SshCaConfigRequest → F (Unit {0})
  pub read_public_key : F SshCaPublicKey
  pub delete_ca : F (Unit {0})
  pub create_role : Text → SshRoleRequest → F (Unit {0})
  pub read_role : Text → F SshRole
  pub delete_role : Text → F (Unit {0})
  pub list_roles : F (List Text)
  pub sign_key : Text → SshSignRequest → F SshSignedKey
  pub verify_otp : SshVerifyRequest → F SshVerifyResponse

-- The implementation by the handler, with the decoders of the responses.
unfoldable pub ssh_handler :
    (env : Env) (waiting : World → World) (c : VaultClient) (mount : Text)
    (read_ssh_ca_public_key : Decode SshCaPublicKey) (read_ssh_role : Decode SshRole)
    (read_ssh_signed_key : Decode SshSignedKey)
    (read_ssh_verify_response : Decode SshVerifyResponse)
    → SshOperations M
ssh_handler env waiting c mount read_ssh_ca_public_key read_ssh_role read_ssh_signed_key
      read_ssh_verify_response =
    record {
      configure_ca = Ssh.configure_ca env waiting c mount;
      read_public_key = Ssh.read_public_key env waiting c mount read_ssh_ca_public_key;
      delete_ca = Ssh.delete_ca env waiting c mount;
      create_role = Ssh.create_role env waiting c mount;
      read_role = Ssh.read_role env waiting c mount read_ssh_role;
      delete_role = Ssh.delete_role env waiting c mount;
      list_roles = Ssh.list_roles env waiting c mount;
      sign_key = Ssh.sign_key env waiting c mount read_ssh_signed_key;
      verify_otp = Ssh.verify_otp env waiting c mount read_ssh_verify_response;
    }

-- `SshHandler` of blocking/mod.rs.
unfoldable pub blocking_ssh : Bool → SshOperations M → SshOperations M
unfolding block_on
blocking_ssh in_runtime o = record {
  configure_ca = λ a. block_on in_runtime (o.configure_ca a);
  read_public_key = block_on in_runtime o.read_public_key;
  delete_ca = block_on in_runtime o.delete_ca;
  create_role = λ a b. block_on in_runtime (o.create_role a b);
  read_role = λ a. block_on in_runtime (o.read_role a);
  delete_role = λ a. block_on in_runtime (o.delete_role a);
  list_roles = block_on in_runtime o.list_roles;
  sign_key = λ a b. block_on in_runtime (o.sign_key a b);
  verify_otp = λ a. block_on in_runtime (o.verify_otp a);
}
