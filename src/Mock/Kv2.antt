-- ===== src/Mock/Kv2.antt =====
-- `MockKv2` of crates/vault-client-rs-test/src/mock.rs.
pub mod Lookups
pub mod Mirrors
use vault_client_rs.Prelude.{false, [], Option, none, some, ◌⊎◌, inl, inr}
use vault_client_rs.Prelude.Text.{Text, codes}
use vault_client_rs.Json.{Json, null, bool, object, end, field}
use vault_client_rs.VaultError.{not_found, field_not_found}
use vault_client_rs.Effect.{Env, Exit, ok, err, panicked}
use vault_client_rs.Wire.{HashMap, member, u64_json}
use vault_client_rs.Kv.{KvReadResponse}
use vault_client_rs.Operations.Kv2.{Kv2Operations}
use vault_client_rs.Mock.{
  Recorded, MockError, to_vault, push, unimplemented, deserialized, programmed,
}

-- The calls are not in the record: the operations pass them on.
pub record MockKv2 : Type 0 where
  pub responses : HashMap (MockError ⊎ Json)

unfoldable pub new : MockKv2
new = record { responses = λ path. none }

unfoldable pub with_data : Text → Json → MockKv2 → MockKv2
unfolding programmed
with_data path value m = record { responses = programmed path (inr value) m.responses }

unfoldable pub with_error : Text → MockError → MockKv2 → MockKv2
unfolding programmed
with_error path e m = record { responses = programmed path (inl e) m.responses }

-- The match in `lookup`.
unfoldable pub answer : Text → Option (MockError ⊎ Json) → Exit Json
unfolding to_vault
answer path none = err (not_found path)
answer path (some (inl e)) = err (to_vault path e)
answer path (some (inr v)) = ok v

unfoldable pub lookup : MockKv2 → Text → Recorded Text Json
unfolding push answer
lookup m path calls = (answer path (m.responses path), (push path calls).1)

-- `data.get(field).and_then(Value::as_str).map(str::to_owned).ok_or_else(…)`.
unfoldable pub string_field : Env → Text → Text → Json → Exit Text
string_field env path name value = elim (env.get name value) [
  | none ↦ err (field_not_found [] path name)
  | some v ↦ elim (env.as_str v) [ none ↦ err (field_not_found [] path name) | some s ↦ ok s ]
]

-- `?` on the outcome of a lookup.
unfoldable pub and_then : {A B : Type 0} → Exit A → (A → Exit B) → Exit B
and_then (ok a) f = f a
and_then (err e) f = err e
and_then panicked f = panicked

unfoldable pub read_field : Env → MockKv2 → Text → Text → Recorded Text Text
unfolding lookup string_field and_then
read_field env m path name calls =
    let (r, calls') = lookup m path calls in (and_then r (string_field env path name), calls')

mock_metadata_json : Json
mock_metadata_json = object (
    member "created_time" [] (
      field (codes "custom_metadata") null (
        member "deletion_time" []
          (field (codes "destroyed") (bool false) (field (codes "version") (u64_json 1) end)))))

module _ {T : Type 0} (from_response : Json → Text ⊎ KvReadResponse T)
    (from_value : Json → Text ⊎ T) (m : MockKv2) where
  unfoldable pub read : Text → Recorded Text (KvReadResponse T)
  unfolding lookup deserialized and_then mock_metadata_json
  read path calls =
      let (r, calls') = lookup m path calls in
      (
        and_then r (λ v. deserialized (
            from_response
              (object (field (codes "data") v (field (codes "metadata") mock_metadata_json end))))),
        calls',
      )

  unfoldable pub read_data : Text → Recorded Text T
  unfolding lookup deserialized and_then
  read_data path calls =
      let (r, calls') = lookup m path calls in
      (and_then r (λ v. deserialized (from_value v)), calls')

  -- `impl Kv2Operations for MockKv2`.
  unfoldable pub mock_kv2 : Kv2Operations (Recorded Text) T
  unfolding read read_data unimplemented
  mock_kv2 = record {
    read_config = unimplemented;
    write_config = λ cfg. unimplemented;
    read = read;
    read_data = read_data;
    read_version = λ path version. read path;
    write = λ path value. unimplemented;
    write_cas = λ path value cas. unimplemented;
    patch = λ path value. unimplemented;
    list = λ path. unimplemented;
    delete = λ path. unimplemented;
    delete_versions = λ path versions. unimplemented;
    undelete_versions = λ path versions. unimplemented;
    destroy_versions = λ path versions. unimplemented;
    read_metadata = λ path. unimplemented;
    write_metadata = λ path meta. unimplemented;
    patch_metadata = λ path meta. unimplemented;
    delete_metadata = λ path. unimplemented;
    read_subkeys = λ path depth. unimplemented;
  }
