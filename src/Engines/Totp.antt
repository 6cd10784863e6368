-- ===== src/Engines/Totp.antt =====
-- api/totp.rs, types/totp.rs: the Totp handler, and its types.
use vault_client_rs.Prelude.{ℕ, Bool, Option, none, some, List}
use vault_client_rs.Prelude.Text.{Text, codes}
use vault_client_rs.Json.{Json, string, bool, object, end, field}
use vault_client_rs.Client.{VaultClient}
use vault_client_rs.Effect.{Env, get, post, Method, World, M, pure, ◌>>=◌}
use vault_client_rs.Execute.{exec_with_data, exec_with_auth, exec_empty, exec_list}
use vault_client_rs.Wire.{Decode, below, named, unless_none, u64_json, member}

pub record TotpKeyRequest : Type 0 where
  pub generate : Bool
  pub exported : Option Bool
  pub key_size : Option ℕ
  pub url : Option Text
  pub key : Option Text
  pub issuer : Option Text
  pub account_name : Option Text
  pub period : Option ℕ
  pub algorithm : Option Text
  pub digits : Option ℕ
  pub skew : Option ℕ
  pub qr_size : Option ℕ

unfoldable pub totp_key_request_body : TotpKeyRequest → Json
totp_key_request_body p = object (
    field (codes "generate") (bool p.generate) (
      unless_none bool (codes "exported") p.exported (
        unless_none u64_json (codes "key_size") p.key_size (
          unless_none string (codes "url") p.url (
            unless_none string (codes "key") p.key (
              unless_none string (codes "issuer") p.issuer (
                unless_none string (codes "account_name") p.account_name (
                  unless_none u64_json (codes "period") p.period (
                    unless_none string (codes "algorithm") p.algorithm (
                      unless_none u64_json (codes "digits") p.digits (
                        unless_none u64_json (codes "skew") p.skew
                          (unless_none u64_json (codes "qr_size") p.qr_size end))))))))))))

pub record TotpKeyInfo : Type 0 where
  pub account_name : Text
  pub algorithm : Text
  pub digits : ℕ
  pub issuer : Text
  pub period : ℕ

pub record TotpGenerateResponse : Type 0 where
  pub barcode : Option Text
  pub url : Option Text

pub record TotpCode : Type 0 where
  pub code : Text

pub record TotpValidation : Type 0 where
  pub valid : Bool

module _ (env : Env) (waiting : World → World) (c : VaultClient) (mount : Text) where
  unfoldable pub create_key :
      Decode TotpGenerateResponse → Text → TotpKeyRequest → M (Option TotpGenerateResponse)
  create_key decode name params w =
      (do
        resp ←
            exec_with_auth env waiting c decode post (named mount "/keys/" name)
              (some (totp_key_request_body params))
        pure resp.data_field)
        w

  unfoldable pub read_key : Decode TotpKeyInfo → Text → M TotpKeyInfo
  read_key decode name = exec_with_data env waiting c decode get (named mount "/keys/" name) none

  unfoldable pub delete_key : Text → M (Unit {0})
  delete_key name = exec_empty env waiting c Method.delete (named mount "/keys/" name) none

  unfoldable pub list_keys : M (List Text)
  list_keys = exec_list env waiting c (below mount "/keys")

  unfoldable pub generate_code : Decode TotpCode → Text → M TotpCode
  generate_code decode name =
      exec_with_data env waiting c decode get (named mount "/code/" name) none

  unfoldable pub validate_code : Decode TotpValidation → Text → Text → M TotpValidation
  validate_code decode name code =
      exec_with_data env waiting c decode post (named mount "/code/" name)
        (some (object (member "code" code end)))
