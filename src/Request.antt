-- ===== src/Request.antt =====
-- client/async_client.rs: `inject_headers` and `execute_raw`, which wrap the retry loop with the
-- headers of a request and the circuit breaker.
pub mod Within
pub mod Precedence
pub mod Breaking
pub mod Addressed
use vault_client_rs.Prelude.{
  ℕ, String, true, Option, none, some, List, [], ◌∷◌, ◌++◌, ◌⊎◌, inl, inr, or_option, if◌then◌else◌,
}
use vault_client_rs.Prelude.Text.{Text, codes, trim_start_matches}
use vault_client_rs.Json.{Json}
use vault_client_rs.VaultError.{url, lock_poisoned}
use vault_client_rs.CircuitBreaker.{CircuitBreaker, Verdict, check, record_success, record_failure}
use vault_client_rs.Client.{ClientConfig, VaultClient}
use vault_client_rs.Effect.{
  Env, Method, patch, Request, Response, World, TokenState, Exit, ok, err, panicked, M, pure, raise,
  ◌>>=◌, ◌>>◌,
}
use vault_client_rs.Retry.{send_with_retry}

-- `self.inner.token.read()`, with the error for a poisoned lock.
unfoldable pub read_token : M (Option TokenState)
read_token w = if w.token_poisoned then (err lock_poisoned, w) else (ok w.token, w)

abbrev pub Headers : Type 0
Headers = List (Text × Text)

abbrev header_if : String → Option Text → Headers
header_if name none = []
header_if name (some v) = (codes name, v) ∷ []

abbrev pub token_value : Option TokenState → Option Text
token_value none = none
token_value (some ts) = some ts.value

-- The headers that `inject_headers` adds, in its order.
unfoldable pub injected : VaultClient → Option TokenState → Headers
injected c token =
    let ns = or_option c.view.namespace_override c.inner.namespace in
    let ttl = or_option c.view.wrap_ttl_override c.inner.config.wrap_ttl in
    header_if "X-Vault-Token" (token_value token)
    ++ (header_if "X-Vault-Namespace" ns
        ++ (header_if "X-Vault-Wrap-TTL" ttl
            ++ (if c.inner.config.forward_to_leader
                then (codes "X-Vault-Forward", codes "active-node") ∷ []
                else [])))

unfoldable pub inject_headers : VaultClient → Request → M Request
unfolding read_token injected
inject_headers c req = do
  token ← read_token
  pure (record req { headers = req.headers ++ injected c token })

abbrev base_headers : Method → Headers
base_headers patch =
    (codes "X-Vault-Request", codes "true")
    ∷ (codes "Content-Type", codes "application/merge-patch+json")
    ∷ []
base_headers _ = (codes "X-Vault-Request", codes "true") ∷ []

abbrev verdict_exit : Verdict → Exit (Unit {0})
verdict_exit none = ok tt
verdict_exit (some e) = err e

check_breaker : Option CircuitBreaker → M (Unit {0})
unfolding check
check_breaker none w = (ok tt, w)
check_breaker (some cb) w =
    let (cb', verdict) = check w.now cb in
    (verdict_exit verdict, record w { circuit_breaker = some cb' })

-- The circuit breaker's record of how the retry loop ended.
record_exit : Exit Response → ℕ → CircuitBreaker → CircuitBreaker
unfolding record_success record_failure
record_exit (ok resp) now cb = record_success cb
record_exit (err e) now cb = record_failure now cb
record_exit panicked now cb = cb

settle : Exit Response → Option CircuitBreaker → World → World
unfolding record_exit
settle r none w = w
settle r (some cb) w = record w { circuit_breaker = some (record_exit r w.now cb) }

parsed : Text ⊎ Text → M Text
parsed (inl e) = raise (url e)
parsed (inr u) = pure u

module _ (env : Env) (c : ClientConfig) where
  send_and_record : Text → Request → M Response
  unfolding settle
  send_and_record u req w =
      let (r, w') = send_with_retry env c u req w in (r, settle r w'.circuit_breaker w')

unfoldable pub execute_raw : Env → VaultClient → Method → Text → Option Json → M Response
unfolding check_breaker parsed inject_headers send_and_record
execute_raw env c method path body w =
    (do
      check_breaker w.circuit_breaker
      u ← parsed (env.parse_url (c.inner.base_url ++ (codes "v1/" ++ trim_start_matches b'/' path)))
      req ←
          inject_headers c
            (record { method = method; url = u; headers = base_headers method; body = none })
      send_and_record env c.inner.config u (record req { body = body }))
      w
