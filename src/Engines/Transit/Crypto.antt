-- ===== src/Engines/Transit/Crypto.antt =====
-- api/transit.rs: what is done with the keys of a transit mount.
use vault_client_rs.Prelude.{ℕ, String, Bool, none, some, List, inl, inr, ◌++◌, ◌⊎◌}
use vault_client_rs.Prelude.Text.{Text, codes}
use vault_client_rs.Json.{Json, string, object, end, field}
use vault_client_rs.VaultError.{config}
use vault_client_rs.EncodePath.{encode_path}
use vault_client_rs.Client.{VaultClient}
use vault_client_rs.Token.{decoded}
use vault_client_rs.Effect.{Env, post, World, M, pure, raise, ◌>>=◌}
use vault_client_rs.Execute.{exec_with_data}
use vault_client_rs.Wire.{Decode, below, named, u64_json, member, array_of, insert}
use vault_client_rs.Engines.Transit.Types.{
  TransitEncryptResponse, TransitDecryptResponse, TransitRewrapResponse, TransitBatchPlaintext,
  transit_batch_plaintext_body, TransitBatchCiphertext, transit_batch_ciphertext_body,
  TransitSignParams, transit_sign_params_body, TransitSignResponse, TransitVerifyResponse,
  TransitHashResponse, TransitHmacResponse, TransitRandomResponse, TransitDataKey,
  TransitBatchEncryptResponse, TransitBatchDecryptItem, TransitBatchDecryptResponse,
  TransitBatchSignInput, transit_batch_sign_input_body, TransitBatchSignResult,
  TransitBatchVerifyInput, transit_batch_verify_input_body, TransitBatchVerifyResult,
  TransitBatchSignResponse, TransitBatchVerifyResponse,
}

-- `map_err(|e| VaultError::Config(format!("…: {e}")))?`.
abbrev pub or_config : String → Text ⊎ Text → M Text
or_config what (inl e) = raise (config (codes what ++ e))
or_config what (inr t) = pure t

-- `body[name] = value` on the object that a parameter struct is serialised to.
abbrev pub with_member : String → Json → Json → Json
unfolding insert
with_member name value (object fields) = object (insert (codes name) value fields)
with_member name value other = other

module _ (env : Env) (waiting : World → World) (c : VaultClient) (mount : Text) where
  unfoldable pub encrypt :
      (encode : Text → Text) → Decode TransitEncryptResponse → Text → Text → M Text
  encrypt encode decode name plaintext w =
      (do
        resp ←
            exec_with_data env waiting c decode post (named mount "/encrypt/" name)
              (some (object (member "plaintext" (encode plaintext) end)))
        pure resp.ciphertext)
        w

  -- With the base64 decoding of a text and the decoding of its bytes, or what their errors say.
  unfoldable pub decrypt :
      (decode from_utf8 : Text → Text ⊎ Text) → Decode TransitDecryptResponse → Text → Text → M Text
  decrypt decode from_utf8 deserialize name ciphertext w =
      (do
        resp ←
            exec_with_data env waiting c deserialize post (named mount "/decrypt/" name)
              (some (object (member "ciphertext" ciphertext end)))
        decoded ← or_config "base64 decode: " (decode resp.plaintext)
        or_config "utf-8 decode: " (from_utf8 decoded))
        w

  unfoldable pub rewrap : Decode TransitRewrapResponse → Text → Text → M Text
  rewrap decode name ciphertext w =
      (do
        resp ←
            exec_with_data env waiting c decode post (named mount "/rewrap/" name)
              (some (object (member "ciphertext" ciphertext end)))
        pure resp.ciphertext)
        w

  unfoldable pub batch_encrypt :
      Decode TransitBatchEncryptResponse
      → Text
      → List TransitBatchPlaintext
      → M (List TransitBatchCiphertext)
  batch_encrypt decode name items w =
      (do
        resp ← exec_with_data env waiting c decode post (named mount "/encrypt/" name) (
            some (
              object
                (field (codes "batch_input") (array_of transit_batch_plaintext_body items) end)))
        pure resp.batch_results)
        w

  unfoldable pub batch_decrypt :
      Decode TransitBatchDecryptResponse
      → Text
      → List TransitBatchCiphertext
      → M (List TransitBatchDecryptItem)
  batch_decrypt decode name items w =
      (do
        resp ← exec_with_data env waiting c decode post (named mount "/decrypt/" name) (
            some (
              object
                (field (codes "batch_input") (array_of transit_batch_ciphertext_body items) end)))
        pure resp.batch_results)
        w

  unfoldable pub sign :
      (encode : Text → Text) → Decode TransitSignResponse → Text → Text → TransitSignParams → M Text
  sign encode decode name input params w =
      (do
        resp ←
            exec_with_data env waiting c decode post (named mount "/sign/" name)
              (some (with_member "input" (string (encode input)) (transit_sign_params_body params)))
        pure resp.signature)
        w

  unfoldable pub verify :
      (encode : Text → Text) → Decode TransitVerifyResponse → Text → Text → Text → M Bool
  verify encode decode name input signature w =
      (do
        resp ←
            exec_with_data env waiting c decode post (named mount "/verify/" name)
              (some (object (member "input" (encode input) (member "signature" signature end))))
        pure resp.valid)
        w

  unfoldable pub hash : (encode : Text → Text) → Decode TransitHashResponse → Text → Text → M Text
  hash encode decode input algorithm w =
      (do
        resp ←
            exec_with_data env waiting c decode post (below mount "/hash")
              (some (object (member "input" (encode input) (member "algorithm" algorithm end))))
        pure resp.sum)
        w

  unfoldable pub hmac :
      (encode : Text → Text) → Decode TransitHmacResponse → Text → Text → Text → M Text
  hmac encode decode name input algorithm w =
      (do
        resp ←
            exec_with_data env waiting c decode post (named mount "/hmac/" name)
              (some (object (member "input" (encode input) (member "algorithm" algorithm end))))
        pure resp.hmac)
        w

  unfoldable pub random : Decode TransitRandomResponse → ℕ → Text → M Text
  random decode num_bytes format w =
      (do
        resp ← exec_with_data env waiting c decode post (below mount "/random") (
            some (object (field (codes "bytes") (u64_json num_bytes) (member "format" format end))))
        pure resp.random_bytes)
        w

  unfoldable pub generate_data_key : Decode TransitDataKey → Text → Text → M TransitDataKey
  generate_data_key decode name key_type =
      exec_with_data env waiting c decode post
        (mount ++ (codes "/datakey/" ++ (encode_path key_type ++ (codes "/" ++ encode_path name))))
        none

  unfoldable pub batch_sign :
      Decode TransitBatchSignResponse
      → Text
      → List TransitBatchSignInput
      → TransitSignParams
      → M (List TransitBatchSignResult)
  batch_sign decode name items params w =
      (do
        resp ← exec_with_data env waiting c decode post (named mount "/sign/" name) (
            some (
              with_member "batch_input" (array_of transit_batch_sign_input_body items)
                (transit_sign_params_body params)))
        pure resp.batch_results)
        w

  unfoldable pub batch_verify :
      Decode TransitBatchVerifyResponse
      → Text
      → List TransitBatchVerifyInput
      → M (List TransitBatchVerifyResult)
  batch_verify decode name items w =
      (do
        resp ← exec_with_data env waiting c decode post (named mount "/verify/" name) (
            some (
              object
                (field (codes "batch_input") (array_of transit_batch_verify_input_body items) end)))
        pure resp.batch_results)
        w
