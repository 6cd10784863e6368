-- ===== src/Operations/Cubbyhole.antt =====
-- api/traits.rs: `CubbyholeOperations`.
use vault_client_rs.Prelude.{List}
use vault_client_rs.Prelude.Text.{Text}
use vault_client_rs.Json.{Json}
use vault_client_rs.Client.{VaultClient}
use vault_client_rs.Effect.{Env, World, M}
use vault_client_rs.Wire.{Decode}
use vault_client_rs.Engines.Cubbyhole

pub record CubbyholeOperations (F : Type 0 → Type 0) (T : Type 0) : Type 0 where
  pub read : Text → F T
  pub write : Text → Json → F (Unit {0})
  pub delete : Text → F (Unit {0})
  pub list : Text → F (List Text)

-- The implementation by the handler, with the decoders of the responses.
unfoldable pub cubbyhole_handler :
    {T : Type 0}
    → (env : Env) (waiting : World → World) (c : VaultClient) (mount : Text) (read_value : Decode T)
    → CubbyholeOperations M T
cubbyhole_handler env waiting c mount read_value = record {
  read = Cubbyhole.read env waiting c mount read_value;
  write = Cubbyhole.write env waiting c mount;
  delete = Cubbyhole.delete env waiting c mount;
  list = Cubbyhole.list env waiting c mount;
}
