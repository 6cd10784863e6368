-- ===== src/Examples/Tokens.antt =====
-- Runs of the token's upkeep.
use vault_client_rs.Prelude.{◌≡◌, refl, true, false, none, some, [], ◌⊎◌, inr}
use vault_client_rs.Prelude.Text.{codes, starts_with}
use vault_client_rs.Prelude.Time.{from_secs}
use vault_client_rs.Json.{Json, null}
use vault_client_rs.VaultError.{permission_denied, ReqwestError}
use vault_client_rs.VaultResponse.{AuthInfo}
use vault_client_rs.CircuitBreaker
use vault_client_rs.CircuitBreaker.{check}
use vault_client_rs.Client.{Overrides, VaultClient}
use vault_client_rs.Effect.{Method, get, patch, Response, World, M, ok, err, extract_errors}
use vault_client_rs.Retry.{send_with_retry}
use vault_client_rs.Request.{execute_raw}
use vault_client_rs.Token.{
  token_of, token_needs_renewal, still_needed, renew_token_via_api, ensure_valid_token,
}
use vault_client_rs.Token.Lifecycle.{ensure_valid_token-falls_back}
use vault_client_rs.Execute.{
  execute, exec_with_data, exec_with_auth, exec_patch, exec_empty, exec_direct, exec_list,
}
use vault_client_rs.Retry.Statuses.{IsSuccess}
use vault_client_rs.Execute.Missing.{Reads, FailsIfMissing, EmptyIfMissing, IsDecoded, exec_missing}
use vault_client_rs.Examples.{server, some_auth, some_client, some_world, due_token}

-- Another caller has renewed the token meanwhile.
abbrev renewed_meanwhile : World → World
renewed_meanwhile w = record w {
  token = some (record due_token { expires_at = some (from_secs 200) });
}

needs_renewal : token_needs_renewal (server 403) some_world.now due_token ≡ true
unfolding token_needs_renewal
needs_renewal = refl

not_needed :
    still_needed
      (server 403)
      (renewed_meanwhile some_world).now
      (renewed_meanwhile some_world).token
    ≡ false
unfolding still_needed
not_needed = refl

needed : still_needed (server 403) some_world.now some_world.token ≡ true
unfolding still_needed
needed = refl

abbrev method : Overrides → M AuthInfo
method view w = (ok some_auth, w)

abbrev client_with_method : VaultClient
client_with_method = record some_client {
  inner = record (some_client.inner) { auth_method = some method };
}

abbrev refused : World
refused = (renew_token_via_api (server 403) client_with_method some_world).1

renewal_fails :
    renew_token_via_api (server 403) client_with_method some_world
    ≡ (err (permission_denied []), refused)
unfolding renew_token_via_api execute_raw send_with_retry check CircuitBreaker.new extract_errors
renewal_fails = refl

refused-readable : refused.token_poisoned ≡ false
unfolding renew_token_via_api execute_raw send_with_retry check CircuitBreaker.new
refused-readable = refl

ensure_valid_token-falls_back_example :
    ((ensure_valid_token (server 403) (λ w. w) client_with_method some_world).0 ≡ ok tt)
    × ((ensure_valid_token (server 403) (λ w. w) client_with_method some_world).1.token
        ≡ some (token_of refused.now some_auth))
ensure_valid_token-falls_back_example =
    ensure_valid_token-falls_back (server 403) (λ w. w) client_with_method some_world due_token
      (permission_denied []) refused method some_auth refused refl refl needs_renewal refl refl
      needed renewal_fails refl refl refused-readable

abbrev absent : Response
absent = record { status = 404; retry_after = none; body = none }

-- A decoder of bodies that are in no envelope.
abbrev plainly : Response → ReqwestError ⊎ Json
plainly resp = inr null

-- A client without a token.
abbrev bare : World
bare = record some_world { token = none }

exec_missing_example :
    let env = server 404 in
    let path = codes "kv/a" in
    let x = (execute env (λ w. w) some_client get path none bare).0 in
    Reads
      (FailsIfMissing path)
      x
      (exec_with_data env (λ w. w) some_client (env.json_value) get path none bare).0
    × Reads
        (FailsIfMissing path)
        x
        (exec_with_auth env (λ w. w) some_client (env.json_value) get path none bare).0
    × Reads
        (FailsIfMissing path)
        (execute env (λ w. w) some_client patch path (some null) bare).0
        (exec_patch env (λ w. w) some_client (env.json_value) path null bare).0
    × Reads (FailsIfMissing path) x (exec_empty env (λ w. w) some_client get path none bare).0
    × Reads
        (λ resp r. IsSuccess resp.status × IsDecoded (plainly resp) r)
        x
        (exec_direct env (λ w. w) some_client plainly get path none bare).0
    × Reads
        (EmptyIfMissing path)
        (execute env (λ w. w) some_client Method.list path none bare).0
        (exec_list env (λ w. w) some_client path bare).0
exec_missing_example =
    exec_missing (server 404) (λ w. w) some_client ((server 404).json_value) plainly get
      (codes "kv/a") none null bare

-- With this server, a 404 is what `execute` returns.
answers : (execute (server 404) (λ w. w) some_client get (codes "kv/a") none bare).0 ≡ ok absent
unfolding execute ensure_valid_token execute_raw send_with_retry check starts_with
    CircuitBreaker.new
answers = refl
