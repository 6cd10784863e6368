-- ===== src/Client.antt =====
-- client/async_client.rs: the parts of a client that do not change, and its views. The parts that
-- change (token, circuit breaker) are in the `World` of Effect.
use vault_client_rs.Prelude.{ℕ, Bool, true, false, Option, none, some}
use vault_client_rs.Prelude.Text.{Text}
use vault_client_rs.Prelude.Time.{from_secs, from_millis}
use vault_client_rs.VaultResponse.{AuthInfo}
use vault_client_rs.Effect.{M}

-- `MAX_BACKOFF`.
abbrev pub max_backoff : ℕ
max_backoff = from_secs 30

pub record ClientConfig : Type 0 where
  pub timeout : ℕ
  pub max_retries : ℕ  -- u32
  pub initial_retry_delay : ℕ
  pub wrap_ttl : Option Text
  pub forward_to_leader : Bool
  pub retry_on_sealed : Bool

abbrev pub default_config : ClientConfig
default_config = record {
  timeout = from_secs 60;
  max_retries = 2;
  initial_retry_delay = from_millis 500;
  wrap_ttl = none;
  forward_to_leader = false;
  retry_on_sealed = true;
}

-- The two fields of a `VaultClient` beside its `Arc`.
pub record Overrides : Type 0 where
  pub namespace_override : Option Text
  pub wrap_ttl_override : Option Text

-- `login_dyn` is given the view of the client that calls it: the rest of the client is fixed when the
-- method is installed. The callback is an outside function: its calls are recorded.
pub record VaultClientInner : Type 0 where
  pub base_url : Text
  pub namespace : Option Text
  pub config : ClientConfig
  pub auth_method : Option (Overrides → M AuthInfo)
  pub on_token_changed : Bool

pub record VaultClient : Type 0 where
  pub inner : VaultClientInner
  pub view : Overrides

unfoldable pub with_namespace : Text → VaultClient → VaultClient
with_namespace ns c = record c { view = record (c.view) { namespace_override = some ns } }

unfoldable pub with_wrap_ttl : Text → VaultClient → VaultClient
with_wrap_ttl ttl c = record c { view = record (c.view) { wrap_ttl_override = some ttl } }
