-- ===== src/Execute.antt =====
-- client/async_client.rs: `execute`, which keeps the token valid before a request, and the `exec_*`
-- functions, which read its response.
pub mod Login
pub mod Bounded
pub mod Missing
pub mod Generic
use vault_client_rs.Prelude.{
  Bool, true, false, ◌&&◌, Option, none, some, List, [], ◌⊎◌, ◌==◌, if◌then◌else◌,
}
use vault_client_rs.Prelude.Text.{Text, codes, starts_with, contains}
use vault_client_rs.Json.{Json}
use vault_client_rs.VaultError.{ReqwestError, not_found, empty_response}
use vault_client_rs.VaultResponse.{VaultResponse, ListResponse}
use vault_client_rs.Client.{VaultClient}
use vault_client_rs.Effect.{
  Env, Method, patch, Response, World, ok, err, M, pure, ok_or, ◌>>=◌, ◌>>◌,
}
use vault_client_rs.Request.{execute_raw}
use vault_client_rs.Token.{ensure_valid_token, decoded}

unfoldable pub is_login : Text → Bool
is_login path = starts_with (codes "auth/") path && contains (codes "/login") path

ensure_unless : Bool → Env → (World → World) → VaultClient → M (Unit {0})
ensure_unless true env waiting c = pure tt
ensure_unless false env waiting c = ensure_valid_token env waiting c

-- `r.status().as_u16() == 404`, as an error or nothing.
unfoldable pub found : Text → Response → M (Unit {0})
found path resp w = ((if resp.status == 404 then err (not_found path) else ok tt), w)

keys_of : Option ListResponse → List Text
keys_of none = []
keys_of (some d) = d.keys

unfoldable pub execute :
    Env → (World → World) → VaultClient → Method → Text → Option Json → M Response
unfolding ensure_unless is_login
execute env waiting c method path body w =
    (do ensure_unless (is_login path) env waiting c; execute_raw env c method path body) w

module _ (env : Env) (waiting : World → World) (c : VaultClient) where
  module _ {T : Type 0} (deserialize : Response → ReqwestError ⊎ VaultResponse T) where
    unfoldable pub exec_with_data : Method → Text → Option Json → M T
    unfolding found
    exec_with_data method path body w =
        (do
          resp ← execute env waiting c method path body
          found path resp
          envelope ← decoded (deserialize resp)
          ok_or envelope.data_field empty_response)
          w

    unfoldable pub exec_with_auth : Method → Text → Option Json → M (VaultResponse T)
    unfolding found
    exec_with_auth method path body w =
        (do
          resp ← execute env waiting c method path body
          found path resp
          decoded (deserialize resp))
          w

    unfoldable pub exec_patch : Text → Json → M T
    unfolding found
    exec_patch path body w =
        (do
          resp ← execute env waiting c patch path (some body)
          found path resp
          envelope ← decoded (deserialize resp)
          ok_or envelope.data_field empty_response)
          w

  unfoldable pub exec_empty : Method → Text → Option Json → M (Unit {0})
  unfolding found
  exec_empty method path body w =
      (do resp ← execute env waiting c method path body; found path resp) w

  -- The body is not in an envelope.
  unfoldable pub exec_direct :
      {T : Type 0} (deserialize : Response → ReqwestError ⊎ T) → Method → Text → Option Json → M T
  exec_direct deserialize method path body w =
      (do resp ← execute env waiting c method path body; decoded (deserialize resp)) w

  list_of : Response → M (List Text)
  unfolding keys_of
  list_of resp w =
      if resp.status == 404
      then (ok [], w)
      else (do envelope ← decoded (env.json_list resp); pure (keys_of envelope.data_field)) w

  unfoldable pub exec_list : Text → M (List Text)
  unfolding list_of
  exec_list path w = (do resp ← execute env waiting c Method.list path none; list_of resp) w
