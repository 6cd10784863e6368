-- ===== src/Operations/Totp.antt =====
-- api/traits.rs: `TotpOperations`, and its blocking form.
use vault_client_rs.Prelude.{Bool, Option, List}
use vault_client_rs.Prelude.Text.{Text}
use vault_client_rs.Client.{VaultClient}
use vault_client_rs.Effect.{Env, World, M}
use vault_client_rs.Wire.{Decode}
use vault_client_rs.Operations.{block_on}
use vault_client_rs.Engines.Totp
use vault_client_rs.Engines.Totp.{
  TotpKeyRequest, TotpKeyInfo, TotpGenerateResponse, TotpCode, TotpValidation,
}

pub record TotpOperations (F : Type 0 → Type 0) : Type 0 where
  pub create_key : Text → TotpKeyRequest → F (Option TotpGenerateResponse)
  pub read_key : Text → F TotpKeyInfo
  pub delete_key : Text → F (Unit {0})
  pub list_keys : F (List Text)
  pub generate_code : Text → F TotpCode
  pub validate_code : Text → Text → F TotpValidation

-- The implementation by the handler, with the decoders of the responses.
unfoldable pub totp_handler :
    (env : Env) (waiting : World → World) (c : VaultClient) (mount : Text)
    (read_totp_generate_response : Decode TotpGenerateResponse)
    (read_totp_key_info : Decode TotpKeyInfo) (read_totp_code : Decode TotpCode)
    (read_totp_validation : Decode TotpValidation)
    → TotpOperations M
totp_handler env waiting c mount read_totp_generate_response read_totp_key_info read_totp_code
      read_totp_validation =
    record {
      create_key = Totp.create_key env waiting c mount read_totp_generate_response;
      read_key = Totp.read_key env waiting c mount read_totp_key_info;
      delete_key = Totp.delete_key env waiting c mount;
      list_keys = Totp.list_keys env waiting c mount;
      generate_code = Totp.generate_code env waiting c mount read_totp_code;
      validate_code = Totp.validate_code env waiting c mount read_totp_validation;
    }

-- `TotpHandler` of blocking/mod.rs.
unfoldable pub blocking_totp : Bool → TotpOperations M → TotpOperations M
unfolding block_on
blocking_totp in_runtime o = record {
  create_key = λ a b. block_on in_runtime (o.create_key a b);
  read_key = λ a. block_on in_runtime (o.read_key a);
  delete_key = λ a. block_on in_runtime (o.delete_key a);
  list_keys = block_on in_runtime o.list_keys;
  generate_code = λ a. block_on in_runtime (o.generate_code a);
  validate_code = λ a b. block_on in_runtime (o.validate_code a b);
}
