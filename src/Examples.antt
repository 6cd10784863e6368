-- ===== src/Examples.antt =====
-- The concrete clients, servers and states of the examples, and runs of the model on them.
mod Retrying
mod Breaker
mod Tokens
mod Callers
mod Logins
mod Paths
mod Watchers
mod Settings
mod Secrets
mod Traversal
mod Engines
mod Mocks
use vault_client_rs.Prelude.{ℕ, ◌*◌, ◌/◌, true, false, none, some, [], ◌∷◌, inr, arith}
use vault_client_rs.Prelude.Text.{codes}
use vault_client_rs.Prelude.Time.{from_secs}
use vault_client_rs.Json.{Json, null}
use vault_client_rs.VaultResponse.{AuthInfo, VaultResponse, ListResponse}
use vault_client_rs.CircuitBreaker
use vault_client_rs.CircuitBreaker.{CircuitBreaker}
use vault_client_rs.Client.{VaultClient, default_config}
use vault_client_rs.Effect.{Env, get, Request, World, TokenState}
use vault_client_rs.Token.Freshness.{IsRounded}

abbrev pub some_auth : AuthInfo
some_auth = record {
  client_token = codes "hvs.new";
  accessor = codes "acc";
  policies = codes "default" ∷ [];
  token_policies = [];
  metadata = none;
  lease_duration = 3600;
  renewable = true;
  entity_id = [];
  token_type = codes "service";
  orphan = true;
  mfa_requirement = none;
  num_uses = none;
}

abbrev pub some_envelope : VaultResponse Json
some_envelope = record {
  request_id = none;
  lease_id = none;
  lease_duration = none;
  renewable = none;
  data_field = some null;
  auth = some some_auth;
  warnings = none;
  wrap_info = none;
}

abbrev pub some_list : VaultResponse ListResponse
some_list = record {
  request_id = none;
  lease_id = none;
  lease_duration = none;
  renewable = none;
  data_field = some (record { keys = codes "a" ∷ [] });
  auth = none;
  warnings = none;
  wrap_info = none;
}

-- A server that gives the same status always.
abbrev pub server : ℕ → Env
server status = record {
  send = λ n req. inr (record { status = status; retry_after = none; body = none });
  latency = λ n. 1000;
  random_range = λ k n. 0;
  try_clone = some;
  parse_url = inr;
  from_str = λ t. none;
  get = λ key v. none;
  as_array = λ v. none;
  as_str = λ v. none;
  json_value = λ r. inr some_envelope;
  json_list = λ r. inr some_list;
  mul_f64 = λ c d. c * d / 100;
}

pub server-IsRounded : (status : ℕ) → IsRounded ((server status).mul_f64)
server-IsRounded status = record { above = λ c d. omega arith; below = λ c d. omega arith }

abbrev pub some_client : VaultClient
some_client = record {
  inner = record {
    base_url = codes "https://vault/";
    namespace = none;
    config = default_config;
    auth_method = none;
    on_token_changed = true;
  };
  view = record { namespace_override = none; wrap_ttl_override = none };
}

abbrev pub some_request : Request
some_request = record {
  method = get;
  url = codes "https://vault/v1/kv/a";
  headers = [];
  body = none;
}

abbrev pub due_token : TokenState
due_token = record {
  value = codes "hvs.old";
  expires_at = some (from_secs 110);
  renewable = true;
  lease_duration = from_secs 100;
}

-- A client whose token is due for renewal, and whose breaker is new.
abbrev pub some_world : World
some_world = record {
  now = from_secs 100;
  token = some due_token;
  token_poisoned = false;
  circuit_breaker = some (CircuitBreaker.new CircuitBreaker.default);
  sent = [];
  sleeps = [];
  draws = 0;
  token_changes = [];
}
