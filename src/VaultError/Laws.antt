-- ===== src/VaultError/Laws.antt =====
-- How the classifiers of types/error.rs fit together.
use vault_client_rs.Prelude.{true, false, ◌≡◌, arith}
use vault_client_rs.VaultError.{VaultError, is_retryable, is_auth_error}

-- An error that asks for new credentials is never retried.
pub auth_error-not_retryable : (e : VaultError) → is_auth_error e ≡ true → is_retryable e ≡ false
unfolding is_retryable is_auth_error
auth_error-not_retryable e h = ground arith
