-- ===== src/Sys/Seal.antt =====
-- api/sys/seal.rs, types/sys.rs: the Seal endpoints of the system backend, and its types.
use vault_client_rs.Prelude.{ℕ, Bool, Option, none, some, List}
use vault_client_rs.Prelude.Text.{Text, codes}
use vault_client_rs.Json.{Json, string, object, end, field}
use vault_client_rs.Client.{VaultClient}
use vault_client_rs.Effect.{Env, get, put, World, M}
use vault_client_rs.Execute.{exec_empty, exec_direct}
use vault_client_rs.Wire.{DecodeDirect, unless_none, u64_json, member, array_of}

pub record SealStatus : Type 0 where
  pub seal_type : Text
  pub initialized : Bool
  pub sealed : Bool
  pub t : ℕ
  pub n : ℕ
  pub progress : ℕ
  pub nonce : Text
  pub version : Text
  pub build_date : Option Text
  pub migration : Option Bool
  pub cluster_name : Option Text
  pub cluster_id : Option Text
  pub recovery_seal : Option Bool
  pub storage_type : Option Text

pub record InitParams : Type 0 where
  pub secret_shares : ℕ
  pub secret_threshold : ℕ
  pub pgp_keys : Option (List Text)
  pub root_token_pgp_key : Option Text
  pub recovery_shares : Option ℕ
  pub recovery_threshold : Option ℕ

unfoldable pub init_params_body : InitParams → Json
init_params_body p = object (
    field (codes "secret_shares") (u64_json p.secret_shares) (
      field (codes "secret_threshold") (u64_json p.secret_threshold) (
        unless_none (array_of string) (codes "pgp_keys") p.pgp_keys (
          unless_none string (codes "root_token_pgp_key") p.root_token_pgp_key (
            unless_none u64_json (codes "recovery_shares") p.recovery_shares
              (unless_none u64_json (codes "recovery_threshold") p.recovery_threshold end))))))

pub record InitResponse : Type 0 where
  pub keys : List Text
  pub keys_base64 : List Text
  pub root_token : Text

module _ (env : Env) (waiting : World → World) (c : VaultClient) where
  unfoldable pub seal_status : DecodeDirect SealStatus → M SealStatus
  seal_status decode = exec_direct env waiting c decode get (codes "sys/seal-status") none

  unfoldable pub seal : M (Unit {0})
  seal = exec_empty env waiting c put (codes "sys/seal") none

  unfoldable pub unseal : DecodeDirect SealStatus → Text → M SealStatus
  unseal decode key =
      exec_direct env waiting c decode put (codes "sys/unseal")
        (some (object (member "key" key end)))

  unfoldable pub init : DecodeDirect InitResponse → InitParams → M InitResponse
  init decode params =
      exec_direct env waiting c decode put (codes "sys/init") (some (init_params_body params))

  unfoldable pub step_down : M (Unit {0})
  step_down = exec_empty env waiting c put (codes "sys/step-down") none
