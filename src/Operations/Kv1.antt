-- ===== src/Operations/Kv1.antt =====
-- api/traits.rs: `Kv1Operations`.
use vault_client_rs.Prelude.{List}
use vault_client_rs.Prelude.Text.{Text}
use vault_client_rs.Json.{Json}
use vault_client_rs.Client.{VaultClient}
use vault_client_rs.Effect.{Env, World, M}
use vault_client_rs.Wire.{Decode}
use vault_client_rs.Kv.V1

pub record Kv1Operations (F : Type 0 → Type 0) (T : Type 0) : Type 0 where
  pub read : Text → F T
  pub write : Text → Json → F (Unit {0})
  pub delete : Text → F (Unit {0})
  pub list : Text → F (List Text)

-- The implementation by the handler, with the decoder of the responses.
unfoldable pub kv1_handler :
    {T : Type 0} → Env → (World → World) → VaultClient → Text → Decode T → Kv1Operations M T
kv1_handler env waiting c mount read_value = record {
  read = V1.read env waiting c mount read_value;
  write = V1.write_value env waiting c mount;
  delete = V1.delete env waiting c mount;
  list = V1.list env waiting c mount;
}
