-- ===== src/Sys/Lease.antt =====
-- api/sys/lease.rs, types/sys.rs: the Lease endpoints of the system backend, and its types.
use vault_client_rs.Prelude.{ℕ, Bool, Option, none, some, ◌++◌}
use vault_client_rs.Prelude.Text.{Text, codes}
use vault_client_rs.Json.{string, object, end}
use vault_client_rs.EncodePath.{encode_path}
use vault_client_rs.Client.{VaultClient}
use vault_client_rs.Effect.{Env, post, put, World, M}
use vault_client_rs.Execute.{exec_with_data, exec_empty, exec_direct}
use vault_client_rs.Wire.{Decode, DecodeDirect, member, insert}

pub record LeaseInfo : Type 0 where
  pub id : Text
  pub issue_time : Text
  pub expire_time : Option Text
  pub last_renewal : Option Text
  pub renewable : Bool
  pub ttl : ℕ

pub record LeaseRenewal : Type 0 where
  pub lease_id : Text
  pub lease_duration : ℕ
  pub renewable : Bool

module _ (env : Env) (waiting : World → World) (c : VaultClient) where
  unfoldable pub read_lease : Decode LeaseInfo → Text → M LeaseInfo
  read_lease decode lease_id =
      exec_with_data env waiting c decode post (codes "sys/leases/lookup")
        (some (object (member "lease_id" lease_id end)))

  unfoldable pub renew_lease : DecodeDirect LeaseRenewal → Text → Option Text → M LeaseRenewal
  unfolding insert
  renew_lease decode lease_id none =
      exec_direct env waiting c decode put (codes "sys/leases/renew")
        (some (object (member "lease_id" lease_id end)))
  renew_lease decode lease_id (some inc) =
      exec_direct env waiting c decode put (codes "sys/leases/renew")
        (some (object (insert (codes "increment") (string inc) (member "lease_id" lease_id end))))

  unfoldable pub revoke_lease : Text → M (Unit {0})
  revoke_lease lease_id =
      exec_empty env waiting c put (codes "sys/leases/revoke")
        (some (object (member "lease_id" lease_id end)))

  unfoldable pub revoke_prefix : Text → M (Unit {0})
  revoke_prefix prefix =
      exec_empty env waiting c put (codes "sys/leases/revoke-prefix/" ++ encode_path prefix) none
