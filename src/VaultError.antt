-- ===== src/VaultError.antt =====
-- types/error.rs: the error type of every operation, and its three classifiers.
pub mod Laws
use vault_client_rs.Prelude.{ℕ, Bool, true, false, ◌||◌, Option, none, some, List, ◌==◌}
use vault_client_rs.Prelude.Text.{Text}

-- What the code asks of a `reqwest::Error`.
pub record ReqwestError : Type 0 where
  pub is_timeout : Bool
  pub is_connect : Bool

pub data VaultError : Type 0 where
  http : ReqwestError → VaultError
  api : ℕ → List Text → VaultError
  sealed : Text → VaultError
  permission_denied : List Text → VaultError
  not_found : Text → VaultError
  rate_limited : Option ℕ → VaultError
  consistency_retry : VaultError
  empty_response : VaultError
  auth_required : VaultError
  config : Text → VaultError
  deserialize : Text → VaultError
  url : Text → VaultError
  lock_poisoned : VaultError
  circuit_open : VaultError
  field_not_found : Text → Text → Text → VaultError

unfoldable pub is_retryable : VaultError → Bool
is_retryable (http e) = e.is_timeout || e.is_connect
is_retryable (sealed u) = true
is_retryable (rate_limited r) = true
is_retryable consistency_retry = true
is_retryable (api status errors) = status == 500 || status == 502 || status == 503 || status == 504
is_retryable _ = false

unfoldable pub is_auth_error : VaultError → Bool
is_auth_error (permission_denied errors) = true
is_auth_error auth_required = true
is_auth_error _ = false

unfoldable pub status_code : VaultError → Option ℕ
status_code (api status errors) = some status
status_code auth_required = some 401
status_code (permission_denied errors) = some 403
status_code (not_found path) = some 404
status_code (rate_limited r) = some 429
status_code consistency_retry = some 412
status_code (sealed u) = some 503
status_code _ = none
