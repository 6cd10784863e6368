-- ===== src/Mock.antt =====
-- crates/vault-client-rs-test/src/mock.rs: the mocks of the operation traits. An operation of a mock reads
-- what was programmed and pushes what it was called with to a list, the oldest call first.
pub mod Kv2
pub mod Cert
pub mod Pki
use vault_client_rs.Prelude.{ℕ, Bool, List, [], ◌∷◌, ◌++◌, some, ◌⊎◌, inl, inr, if◌then◌else◌}
use vault_client_rs.Prelude.Text.{Text, codes, text_eq}
use vault_client_rs.Json.{Json, string, bool, object, end, field}
use vault_client_rs.VaultError.{
  VaultError, not_found, permission_denied, auth_required, api, deserialize,
}
use vault_client_rs.Effect.{Exit, ok, err, panicked}
use vault_client_rs.Wire.{HashMap, member, u64_json, array_of}

-- An operation of a mock whose calls are recorded as `C`.
abbrev pub Recorded : Type 0 → Type 0 → Type 0
Recorded C A = List C → Exit A × List C

pub data MockError : Type 0 where
  mock_not_found : MockError
  denied : MockError
  mock_auth_required : MockError
  mock_api : ℕ → List Text → MockError

unfoldable pub to_vault : Text → MockError → VaultError
to_vault path mock_not_found = not_found path
to_vault path denied = permission_denied (codes "permission denied" ∷ [])
to_vault path mock_auth_required = auth_required
to_vault path (mock_api status errors) = api status errors

-- `Mutex<Vec<C>>::push`.
unfoldable pub push : {C : Type 0} → C → Recorded C (Unit {0})
push c calls = (ok tt, calls ++ (c ∷ []))

-- `unimplemented!()`.
unfoldable pub unimplemented : {C A : Type 0} → Recorded C A
unimplemented calls = (panicked, calls)

-- `serde_json::from_value(v).map_err(VaultError::Deserialize)`, with the text of the error.
unfoldable pub deserialized : {A : Type 0} → Text ⊎ A → Exit A
deserialized (inl e) = err (deserialize e)
deserialized (inr a) = ok a

-- `HashMap::insert`.
unfoldable pub programmed : {V : Type 0} → Text → V → HashMap V → HashMap V
programmed path v map p = if text_eq p path then some v else map p

unfoldable pub auth_info : Text → Text → List Text → ℕ → Bool → Json
auth_info token accessor policies lease renewable = object (
    member "client_token" token (
      member "accessor" accessor (
        field (codes "policies") (array_of string policies) (
          field (codes "token_policies") (array_of string policies) (
            field (codes "lease_duration") (u64_json lease) (
              field (codes "renewable") (bool renewable)
                (member "entity_id" [] (member "token_type" (codes "service") end))))))))
