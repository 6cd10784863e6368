-- ===== src/Mock/Pki.antt =====
-- `MockPki` of crates/vault-client-rs-test/src/mock.rs.
use vault_client_rs.Prelude.{List, [], ◌∷◌, Option, none, some, ◌⊎◌, inl, inr}
use vault_client_rs.Prelude.Text.{Text, codes}
use vault_client_rs.Json.{Json, string, object, end, field}
use vault_client_rs.VaultError.{api}
use vault_client_rs.Effect.{Exit, err}
use vault_client_rs.Wire.{member, u64_json, array_of}
use vault_client_rs.Engines.Pki.Types.{PkiSignedCert}
use vault_client_rs.Operations.Pki.{PkiOperations}
use vault_client_rs.Mock.{Recorded, MockError, to_vault, push, unimplemented, deserialized}

first_or_empty : List Text → Text
first_or_empty [] = []
first_or_empty (t ∷ ts) = t

unfoldable pki_signed : Text → List Text → Json
unfolding first_or_empty
pki_signed certificate ca_chain = object (
    member "certificate" certificate (
      member "issuing_ca" (first_or_empty ca_chain) (
        field (codes "ca_chain") (array_of string ca_chain) (
          member "serial_number" (codes "00:11:22:33")
            (field (codes "expiration") (u64_json 0) end)))))

pub record MockPki : Type 0 where
  pub sign_verbatim : Option (MockError ⊎ Json)

unfoldable new : MockPki
new = record { sign_verbatim = none }

unfoldable with_signed : Json → MockPki → MockPki
with_signed signed m = record { sign_verbatim = some (inr signed) }

unfoldable with_error : MockError → MockPki → MockPki
with_error e m = record { sign_verbatim = some (inl e) }

-- The match in `sign_verbatim`.
signed_outcome : (Json → Text ⊎ PkiSignedCert) → Option (MockError ⊎ Json) → Exit PkiSignedCert
unfolding to_vault deserialized
signed_outcome from_value none = err (api 500 (codes "MockPki::sign_verbatim not programmed" ∷ []))
signed_outcome from_value (some (inl e)) = err (to_vault (codes "pki/sign-verbatim") e)
signed_outcome from_value (some (inr v)) = deserialized (from_value v)

-- `impl PkiOperations for MockPki`.
unfoldable mock_pki :
    (Json → Text ⊎ PkiSignedCert) → MockPki → PkiOperations (Recorded (Text × Text))
unfolding signed_outcome push unimplemented
mock_pki from_value m = record {
  generate_root = λ x. unimplemented;
  generate_intermediate_csr = λ x. unimplemented;
  set_signed_intermediate = λ x. unimplemented;
  delete_root = unimplemented;
  list_issuers = unimplemented;
  read_issuer = λ x. unimplemented;
  update_issuer = λ x y. unimplemented;
  delete_issuer = λ x. unimplemented;
  create_role = λ x y. unimplemented;
  read_role = λ x. unimplemented;
  list_roles = unimplemented;
  delete_role = λ x. unimplemented;
  issue = λ x y. unimplemented;
  sign = λ x y. unimplemented;
  sign_verbatim =
      λ role csr calls. (signed_outcome from_value m.sign_verbatim, (push (role, csr) calls).1);
  list_certs = unimplemented;
  read_cert = λ x. unimplemented;
  set_urls = λ x. unimplemented;
  read_urls = unimplemented;
  revoke = λ x. unimplemented;
  revoke_with_key = λ x y. unimplemented;
  rotate_crl = unimplemented;
  tidy = λ x. unimplemented;
  tidy_status = unimplemented;
  cross_sign_intermediate = λ x. unimplemented;
  read_acme_config = unimplemented;
  write_acme_config = λ x. unimplemented;
  rotate_delta_crl = unimplemented;
  read_crl = unimplemented;
  read_crl_delta = unimplemented;
}
