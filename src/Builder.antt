-- ===== src/Builder.antt =====
-- client/async_client.rs: `ClientBuilder` and its `build`. The HTTP client that it makes or is given is
-- the `Env` of the requests, so of `build_reqwest_client` only the errors are modelled.
pub mod CliMode
pub mod Slash
pub mod Setters
pub mod FromEnv
pub mod Blocking
use vault_client_rs.Prelude.{
  ℕ, Bool, false, not, Option, none, some, [], ◌++◌, ◌⊎◌, inl, inr, unwrap_or, if◌then◌else◌,
}
use vault_client_rs.Prelude.Text.{Text, codes, ends_with}
use vault_client_rs.Prelude.Time.{from_secs, from_millis}
use vault_client_rs.VaultError.{VaultError, config}
use vault_client_rs.VaultResponse.{AuthInfo}
use vault_client_rs.CircuitBreaker
use vault_client_rs.CircuitBreaker.{CircuitBreaker, CircuitBreakerConfig}
use vault_client_rs.Client.{Overrides, ClientConfig, VaultClient}
use vault_client_rs.Effect.{TokenState, World, M}

pub record ClientBuilder : Type 0 where
  pub address : Option Text
  pub token : Option Text
  pub namespace : Option Text
  pub timeout : Option ℕ
  pub max_retries : Option ℕ  -- u32
  pub initial_retry_delay : Option ℕ
  pub wrap_ttl : Option Text
  pub forward_to_leader : Bool
  pub danger_disable_tls_verify : Bool
  pub ca_cert_pem : Option Text
  pub client_cert_pem : Option Text
  pub client_key_pem : Option Text
  pub has_reqwest_client : Bool
  pub auth_method : Option (Overrides → M AuthInfo)
  pub circuit_breaker : Option CircuitBreakerConfig
  pub on_token_changed : Bool
  pub cli_mode : Bool

-- `ClientBuilder::default`.
abbrev pub default_builder : ClientBuilder
default_builder = record {
  address = none;
  token = none;
  namespace = none;
  timeout = none;
  max_retries = none;
  initial_retry_delay = none;
  wrap_ttl = none;
  forward_to_leader = false;
  danger_disable_tls_verify = false;
  ca_cert_pem = none;
  client_cert_pem = none;
  client_key_pem = none;
  has_reqwest_client = false;
  auth_method = none;
  circuit_breaker = none;
  on_token_changed = false;
  cli_mode = false;
}

unfoldable pub set_address : Text → ClientBuilder → ClientBuilder
set_address addr b = record b { address = some addr }

unfoldable pub set_token_str : Text → ClientBuilder → ClientBuilder
set_token_str token b = record b { token = some token }

unfoldable pub set_max_retries : ℕ → ClientBuilder → ClientBuilder
set_max_retries n b = record b { max_retries = some n }

-- `ClientBuilder::cli_mode`.
unfoldable pub set_cli_mode : Bool → ClientBuilder → ClientBuilder
set_cli_mode on b = record b { max_retries = (if on then some 0 else b.max_retries); cli_mode = on }

-- What the builder asks of url and reqwest: a parsed URL as its text, its path, and the URL with
-- another path; the error text of a certificate, of an identity and of the client, if it is refused.
pub record Libraries : Type 0 where
  pub parse_url : Text → Text ⊎ Text
  pub path : Text → Text
  pub set_path : Text → Text → Text
  pub certificate_error : Text → Option Text
  pub identity_error : Text → Option Text
  pub client_error : Option Text

abbrev failing : Text → Option Text → Option VaultError
failing prefix none = none
failing prefix (some e) = some (config (prefix ++ e))

-- The first error of two.
abbrev first : Option VaultError → Option VaultError → Option VaultError
first (some e) rest = some e
first none rest = rest

certificate_check : Libraries → Option Text → Option VaultError
certificate_check libs none = none
certificate_check libs (some pem) = failing (codes "CA cert: ") (libs.certificate_error pem)

identity_check : Libraries → Option Text → Option Text → Option VaultError
identity_check libs (some cert) (some key) =
    failing (codes "TLS identity: ") (libs.identity_error (cert ++ key))
identity_check libs _ _ = none

-- The error of `build_reqwest_client`, if it gives one.
unfoldable pub build_reqwest_client :
    Libraries → Option Text → Option Text → Option Text → Option VaultError
unfolding certificate_check identity_check
build_reqwest_client libs ca cert key =
    first (certificate_check libs ca)
      (first (identity_check libs cert key) (failing (codes "reqwest client: ") libs.client_error))

-- The base URL, with a path that ends in `/`.
unfoldable pub with_slash : Libraries → Text → Text
with_slash libs u =
    if ends_with b'/' (libs.path u) then u else libs.set_path u (libs.path u ++ codes "/")

base_url : Libraries → Option Text → VaultError ⊎ Text
unfolding with_slash
base_url libs none = inl (config (codes "address is required"))
base_url libs (some addr) = elim (libs.parse_url addr) [
  | inl e ↦ inl (config (codes "invalid address: " ++ e))
  | inr u ↦ inr (with_slash libs u)
]

unfoldable pub config_of : ClientBuilder → ClientConfig
config_of b = record {
  timeout = unwrap_or b.timeout (from_secs 60);
  max_retries = unwrap_or b.max_retries 2;
  initial_retry_delay = unwrap_or b.initial_retry_delay (from_millis 500);
  wrap_ttl = b.wrap_ttl;
  forward_to_leader = b.forward_to_leader;
  retry_on_sealed = not b.cli_mode;
}

initial_token : Option Text → Option TokenState
initial_token none = none
initial_token (some t) =
    some (record { value = t; expires_at = none; renewable = false; lease_duration = 0 })

initial_breaker : Option CircuitBreakerConfig → Option CircuitBreaker
unfolding CircuitBreaker.new
initial_breaker none = none
initial_breaker (some c) = some (CircuitBreaker.new c)

-- A client, and what its locks hold at first.
pub record Built : Type 0 where
  pub client : VaultClient
  pub token : Option TokenState
  pub circuit_breaker : Option CircuitBreaker

built : ClientBuilder → Text → Built
unfolding config_of initial_token initial_breaker
built b u = record {
  client = record {
    inner = record {
      base_url = u;
      namespace = b.namespace;
      config = config_of b;
      auth_method = b.auth_method;
      on_token_changed = b.on_token_changed;
    };
    view = record { namespace_override = none; wrap_ttl_override = none };
  };
  token = initial_token b.token;
  circuit_breaker = initial_breaker b.circuit_breaker;
}

checked : Option VaultError → Built → VaultError ⊎ Built
checked none x = inr x
checked (some e) x = inl e

-- `build`.
unfoldable pub build : Libraries → ClientBuilder → VaultError ⊎ Built
unfolding base_url built checked build_reqwest_client
build libs b = elim (base_url libs b.address) [
  | inl e ↦ inl e
  | inr u ↦
      checked
        (if b.has_reqwest_client
          then none
          else build_reqwest_client libs b.ca_cert_pem b.client_cert_pem b.client_key_pem)
        (built b u)
]

-- `VaultClient::new`.
unfoldable pub new_client : Libraries → Text → Text → VaultError ⊎ Built
unfolding set_address set_token_str build
new_client libs address token =
    build libs (set_token_str token (set_address address default_builder))

-- The world that a client starts in.
abbrev pub start_world : Built → ℕ → World
start_world x now = record {
  now = now;
  token = x.token;
  token_poisoned = false;
  circuit_breaker = x.circuit_breaker;
  sent = [];
  sleeps = [];
  draws = 0;
  token_changes = [];
}
