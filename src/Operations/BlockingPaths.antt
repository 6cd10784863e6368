-- ===== src/Operations/BlockingPaths.antt =====
-- blocking/mod.rs: the operations on arbitrary paths, the cubbyhole and KV version 1. What is written
-- is a value that serialises or does not.
use vault_client_rs.Prelude.{Bool, List, ◌⊎◌}
use vault_client_rs.Prelude.Text.{Text}
use vault_client_rs.Json.{Json}
use vault_client_rs.VaultError.{VaultError}
use vault_client_rs.VaultResponse.{VaultResponse}
use vault_client_rs.Client.{VaultClient}
use vault_client_rs.Effect.{Env, World, M, ◌>>=◌}
use vault_client_rs.Wire.{Decode}
use vault_client_rs.Operations.{block_on}
use vault_client_rs.Execute.Generic
use vault_client_rs.Engines.Cubbyhole
use vault_client_rs.Kv.{to_body}
use vault_client_rs.Kv.V1

-- The operations of `BlockingVaultClient`, and those of `Kv1Handler` and `CubbyholeHandler`.
pub record PathOperations (T : Type 0) : Type 0 where
  pub read : Text → M T
  pub read_raw : Text → M (VaultResponse Json)
  pub write : Text → VaultError ⊎ Json → M (VaultResponse T)
  pub delete : Text → M (Unit {0})
  pub list : Text → M (List Text)

pub record StoreOperations (T : Type 0) : Type 0 where
  pub read : Text → M T
  pub write : Text → VaultError ⊎ Json → M (Unit {0})
  pub delete : Text → M (Unit {0})
  pub list : Text → M (List Text)

module _ {T : Type 0} (in_runtime : Bool) (env : Env) (waiting : World → World) (c : VaultClient)
    (decode : Decode T) where
  unfoldable pub blocking_paths : PathOperations T
  unfolding block_on Generic.read Generic.read_raw Generic.write Generic.delete_at Generic.list
  blocking_paths = record {
    read = λ p. block_on in_runtime (Generic.read env waiting c decode p);
    read_raw = λ p. block_on in_runtime (Generic.read_raw env waiting c p);
    write = λ p v. block_on in_runtime (Generic.write env waiting c decode p v);
    delete = λ p. block_on in_runtime (Generic.delete_at env waiting c p);
    list = λ p. block_on in_runtime (Generic.list env waiting c p);
  }

  unfoldable pub blocking_cubbyhole : Text → StoreOperations T
  unfolding block_on Cubbyhole.read Cubbyhole.write Cubbyhole.delete Cubbyhole.list
  blocking_cubbyhole mount = record {
    read = λ p. block_on in_runtime (Cubbyhole.read env waiting c mount decode p);
    write = λ p v.
        block_on in_runtime
          (λ w. (do body ← to_body v; Cubbyhole.write env waiting c mount p body) w);
    delete = λ p. block_on in_runtime (Cubbyhole.delete env waiting c mount p);
    list = λ p. block_on in_runtime (Cubbyhole.list env waiting c mount p);
  }

  unfoldable pub blocking_kv1 : Text → StoreOperations T
  unfolding block_on V1.read V1.write V1.delete V1.list
  blocking_kv1 mount = record {
    read = λ p. block_on in_runtime (V1.read env waiting c mount decode p);
    write = λ p v. block_on in_runtime (V1.write env waiting c mount p v);
    delete = λ p. block_on in_runtime (V1.delete env waiting c mount p);
    list = λ p. block_on in_runtime (V1.list env waiting c mount p);
  }
