-- ===== src/Builder/Setters.antt =====
-- client/async_client.rs: the other setters of `ClientBuilder`.
use vault_client_rs.Prelude.{ℕ, Bool, true, some}
use vault_client_rs.Prelude.Text.{Text}
use vault_client_rs.VaultResponse.{AuthInfo}
use vault_client_rs.CircuitBreaker.{CircuitBreakerConfig}
use vault_client_rs.Client.{Overrides}
use vault_client_rs.Effect.{M}
use vault_client_rs.Builder.{ClientBuilder}

unfoldable pub set_namespace : Text → ClientBuilder → ClientBuilder
set_namespace ns b = record b { namespace = some ns }

unfoldable pub set_timeout : ℕ → ClientBuilder → ClientBuilder
set_timeout timeout b = record b { timeout = some timeout }

unfoldable pub set_initial_retry_delay : ℕ → ClientBuilder → ClientBuilder
set_initial_retry_delay d b = record b { initial_retry_delay = some d }

unfoldable pub set_wrap_ttl : Text → ClientBuilder → ClientBuilder
set_wrap_ttl ttl b = record b { wrap_ttl = some ttl }

unfoldable pub set_forward_to_leader : Bool → ClientBuilder → ClientBuilder
set_forward_to_leader on b = record b { forward_to_leader = on }

unfoldable pub set_danger_disable_tls_verify : Bool → ClientBuilder → ClientBuilder
set_danger_disable_tls_verify on b = record b { danger_disable_tls_verify = on }

unfoldable pub set_ca_cert_pem : Text → ClientBuilder → ClientBuilder
set_ca_cert_pem pem b = record b { ca_cert_pem = some pem }

unfoldable pub set_client_cert_pem : Text → Text → ClientBuilder → ClientBuilder
set_client_cert_pem cert key b = record b { client_cert_pem = some cert; client_key_pem = some key }

unfoldable pub set_auth_method : (Overrides → M AuthInfo) → ClientBuilder → ClientBuilder
set_auth_method method b = record b { auth_method = some method }

unfoldable pub set_circuit_breaker : CircuitBreakerConfig → ClientBuilder → ClientBuilder
set_circuit_breaker settings b = record b { circuit_breaker = some settings }

-- What the callback does is the callers' own: the world counts its calls.
unfoldable pub set_on_token_changed : ClientBuilder → ClientBuilder
set_on_token_changed b = record b { on_token_changed = true }

unfoldable pub set_reqwest_client : ClientBuilder → ClientBuilder
set_reqwest_client b = record b { has_reqwest_client = true }
