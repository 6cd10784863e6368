-- ===== src/Mock/Cert.antt =====
-- `MockCertAuth` of crates/vault-client-rs-test/src/mock.rs.
use vault_client_rs.Prelude.{Option, none, some, ◌⊎◌, inl, inr}
use vault_client_rs.Prelude.Text.{Text, codes}
use vault_client_rs.Json.{Json}
use vault_client_rs.VaultError.{auth_required}
use vault_client_rs.VaultResponse.{AuthInfo}
use vault_client_rs.Effect.{Exit, err}
use vault_client_rs.Operations.CertAuth.{CertAuthOperations}
use vault_client_rs.Mock.{Recorded, MockError, to_vault, push, unimplemented, deserialized}

pub record MockCertAuth : Type 0 where
  pub login : Option (MockError ⊎ Json)

unfoldable new : MockCertAuth
new = record { login = none }

unfoldable with_login : Json → MockCertAuth → MockCertAuth
with_login auth m = record { login = some (inr auth) }

unfoldable with_error : MockError → MockCertAuth → MockCertAuth
with_error e m = record { login = some (inl e) }

-- The match in `login`.
login_outcome : (Json → Text ⊎ AuthInfo) → Option (MockError ⊎ Json) → Exit AuthInfo
unfolding to_vault deserialized
login_outcome from_value none = err auth_required
login_outcome from_value (some (inl e)) = err (to_vault (codes "auth/cert/login") e)
login_outcome from_value (some (inr v)) = deserialized (from_value v)

-- `impl CertAuthOperations for MockCertAuth`.
unfoldable mock_cert_auth :
    (Json → Text ⊎ AuthInfo) → MockCertAuth → CertAuthOperations (Recorded (Option Text))
unfolding login_outcome push unimplemented
mock_cert_auth from_value m = record {
  login = λ name calls. (login_outcome from_value m.login, (push name calls).1);
  create_role = λ name params. unimplemented;
  read_role = λ name. unimplemented;
  delete_role = λ name. unimplemented;
  list_roles = unimplemented;
}
