-- ===== src/Examples/Secrets.antt =====
-- Runs of the KV handlers, of the views and of the builder.
use vault_client_rs.Prelude.{
  ℕ, ◌+◌, ◌≤◌, ◌≡◌, refl, true, false, Option, none, some, [], ◌⊎◌, inl, inr, length, if◌then◌else◌,
  arith,
}
use vault_client_rs.Prelude.Text.{Text, codes, text_eq, starts_with}
use vault_client_rs.Json.{Json, number, pos_int}
use vault_client_rs.VaultError.{VaultError, ReqwestError}
use vault_client_rs.VaultResponse.{VaultResponse}
use vault_client_rs.Client.{with_namespace, with_wrap_ttl}
use vault_client_rs.Effect.{get, Response, World, ok}
use vault_client_rs.Request.{injected, token_value, execute_raw}
use vault_client_rs.Request.Precedence.{header, injected-view}
use vault_client_rs.Retry.{send_with_retry}
use vault_client_rs.Token.{ensure_valid_token}
use vault_client_rs.Kv.{HashMap, KvReadResponse}
use vault_client_rs.Kv.V1
use vault_client_rs.Kv.V2
use vault_client_rs.Kv.V2.{secret_data, endpoint}
use vault_client_rs.Kv.V2.Endpoints.{endpoint-injective}
use vault_client_rs.Builder.{ClientBuilder, Libraries, Built, default_builder, build}
use vault_client_rs.Builder.CliMode.{from_env-one_request}
use vault_client_rs.Builder.FromEnv.{Environment, is_on, from_env, with_cli_mode}
use vault_client_rs.Execute.{exec_with_data, execute}
use vault_client_rs.Examples.{server, some_client, some_world, due_token}

injected-view_example :
    let h = injected some_client (some due_token) in
    let h_ns = injected (with_namespace (codes "team") some_client) (some due_token) in
    let h_ttl = injected (with_wrap_ttl (codes "60s") some_client) (some due_token) in
    (header (codes "X-Vault-Namespace") h_ns ≡ some (codes "team"))
    × (header (codes "X-Vault-Wrap-TTL") h_ns ≡ header (codes "X-Vault-Wrap-TTL") h)
    × (header (codes "X-Vault-Token") h_ns ≡ token_value (some due_token))
    × (header (codes "X-Vault-Wrap-TTL") h_ttl ≡ some (codes "60s"))
    × (header (codes "X-Vault-Namespace") h_ttl ≡ header (codes "X-Vault-Namespace") h)
    × (header (codes "X-Vault-Token") h_ttl ≡ token_value (some due_token))
injected-view_example = injected-view (codes "team") (codes "60s") some_client (some due_token)

endpoint-injective_example : (secret_data ≡ secret_data) × (codes "a b" ≡ codes "a b")
endpoint-injective_example =
    endpoint-injective (codes "kv") secret_data secret_data (codes "a b") (codes "a b")
      (ground arith) (ground arith) refl

abbrev twelve : ℕ
twelve = 12

abbrev fields : HashMap Json
fields name = if text_eq name (codes "port") then some (number (pos_int 80)) else none

abbrev response : {T : Type 0} → T → Response → ReqwestError ⊎ VaultResponse T
response t r = inr (record {
  request_id = none;
  lease_id = none;
  lease_duration = none;
  renewable = none;
  data_field = some t;
  auth = none;
  warnings = none;
  wrap_info = none;
})

abbrev versioned : KvReadResponse (HashMap Json)
versioned = record {
  data_field = fields;
  metadata = record {
    created_time = [];
    custom_metadata = none;
    deletion_time = [];
    destroyed = false;
    version = 1;
  };
}

abbrev show : Json → Text
show (number (pos_int n)) = codes "80"
show _ = codes "?"

-- A client without a token.
abbrev bare : World
bare = record some_world { token = none; circuit_breaker = none }

abbrev after1 : World
after1 =
    (V1.read (server 200) (λ w. w) some_client (codes "kv") (response fields) (codes "app") bare).1

abbrev after2 : World
after2 =
    (V2.read (server 200) (λ w. w) some_client (codes "kv") (response versioned) (codes "app")
      bare).1

reads1 :
    V1.read (server 200) (λ w. w) some_client (codes "kv") (response fields) (codes "app") bare
    ≡ (ok fields, after1)
unfolding V1.read exec_with_data execute ensure_valid_token execute_raw send_with_retry starts_with
    V1.secret_url
reads1 = refl

reads2 :
    V2.read (server 200) (λ w. w) some_client (codes "kv") (response versioned) (codes "app") bare
    ≡ (ok versioned, after2)
unfolding V2.read exec_with_data execute ensure_valid_token execute_raw send_with_retry starts_with
    endpoint
reads2 = refl

-- Every URL has the path that it was given last, or the one of its text.
abbrev libraries : Libraries
libraries = record {
  parse_url = inr;
  path = λ u. u;
  set_path = λ u p. p;
  certificate_error = λ pem. none;
  identity_error = λ pem. none;
  client_error = none;
}

abbrev builder : ClientBuilder
builder = record default_builder { address = some (codes "https://vault") }

abbrev built_from : VaultError ⊎ Built → Built
built_from (inr x) = x
built_from (inl e) = record { client = some_client; token = none; circuit_breaker = none }

-- Only the address and a number of retries are set.
variables : Text → Option Text
variables name =
    if text_eq name (codes "VAULT_ADDR")
    then some (codes "https://vault")
    else if text_eq name (codes "VAULT_MAX_RETRIES")
    then some (codes "9")
    else none

abbrev environment : Environment
unfolding variables
environment = record {
  var = variables;
  home_dir = none;
  read = λ _. none;
  read_to_string = λ _. none;
}

abbrev in_cli_mode : Built
in_cli_mode = built_from (build libraries (from_env (with_cli_mode (codes "True") environment)))

switched_on : is_on (some (codes "True")) ≡ true
unfolding is_on
switched_on = refl

builds_cli : build libraries (from_env (with_cli_mode (codes "True") environment)) ≡ inr in_cli_mode
unfolding build from_env with_cli_mode environment
builds_cli = refl

from_env-one_request_example :
    (length (execute_raw (server 500) in_cli_mode.client get (codes "kv/a") none bare).1.sent
      ≤ length bare.sent + 1)
    × (in_cli_mode.client.inner.config.retry_on_sealed ≡ false)
from_env-one_request_example =
    from_env-one_request libraries environment (codes "True") in_cli_mode (server 500) get
      (codes "kv/a") none bare switched_on builds_cli

abbrev plainly : Built
plainly = built_from (build libraries builder)

builds_plain : build libraries builder ≡ inr plainly
unfolding build
builds_plain = refl
