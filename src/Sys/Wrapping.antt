-- ===== src/Sys/Wrapping.antt =====
-- api/sys/wrapping.rs, types/sys.rs: the Wrapping endpoints of the system backend, and its types.
use vault_client_rs.Prelude.{ℕ, Option, none, some, List}
use vault_client_rs.Prelude.Text.{Text, codes}
use vault_client_rs.Json.{string, object, end, field}
use vault_client_rs.VaultResponse.{WrapInfo}
use vault_client_rs.Client.{VaultClient}
use vault_client_rs.Effect.{Env, get, post, put, World, M}
use vault_client_rs.Execute.{exec_with_data, exec_empty}
use vault_client_rs.Wire.{Decode, HashMap, member, array_of}

pub record KeyStatus : Type 0 where
  pub term : ℕ
  pub install_time : Text
  pub encryptions : Option ℕ

module _ (env : Env) (waiting : World → World) (c : VaultClient) where
  unfoldable pub unwrap : {T : Type 0} → Decode T → Text → M T
  unwrap decode token =
      exec_with_data env waiting c decode post (codes "sys/wrapping/unwrap")
        (some (object (member "token" token end)))

  unfoldable pub wrap_lookup : Decode WrapInfo → Text → M WrapInfo
  wrap_lookup decode token =
      exec_with_data env waiting c decode post (codes "sys/wrapping/lookup")
        (some (object (member "token" token end)))

  unfoldable pub capabilities :
      Decode (HashMap (List Text)) → Text → List Text → M (HashMap (List Text))
  capabilities decode token paths =
      exec_with_data env waiting c decode post (codes "sys/capabilities")
        (some (object (member "token" token (field (codes "paths") (array_of string paths) end))))

  unfoldable pub capabilities_self :
      Decode (HashMap (List Text)) → List Text → M (HashMap (List Text))
  capabilities_self decode paths =
      exec_with_data env waiting c decode post (codes "sys/capabilities-self")
        (some (object (field (codes "paths") (array_of string paths) end)))

  unfoldable pub key_status : Decode KeyStatus → M KeyStatus
  key_status decode = exec_with_data env waiting c decode get (codes "sys/key-status") none

  unfoldable pub rotate_encryption_key : M (Unit {0})
  rotate_encryption_key = exec_empty env waiting c put (codes "sys/rotate") none
