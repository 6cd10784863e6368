-- ===== src/Sys/Health.antt =====
-- api/sys/health.rs, types/sys.rs: the Health endpoints of the system backend, and its types.
use vault_client_rs.Prelude.{ℕ, Bool, Option, none}
use vault_client_rs.Prelude.Text.{Text, codes}
use vault_client_rs.Client.{VaultClient}
use vault_client_rs.Effect.{Env, get, World, M}
use vault_client_rs.Execute.{exec_direct}
use vault_client_rs.Wire.{DecodeDirect}

pub record HealthResponse : Type 0 where
  pub initialized : Bool
  pub sealed : Bool
  pub standby : Bool
  pub performance_standby : Bool
  pub replication_performance_mode : Option Text
  pub replication_dr_mode : Option Text
  pub server_time_utc : Option ℕ
  pub version : Text
  pub cluster_name : Option Text
  pub cluster_id : Option Text

pub record LeaderResponse : Type 0 where
  pub ha_enabled : Bool
  pub is_self : Bool
  pub leader_address : Text
  pub leader_cluster_address : Text
  pub performance_standby : Bool

module _ (env : Env) (waiting : World → World) (c : VaultClient) where
  unfoldable pub health : DecodeDirect HealthResponse → M HealthResponse
  health decode =
      exec_direct env waiting c decode get
        (codes
          "sys/health?standbyok=true&perfstandbyok=true&drsecondarycode=200&sealedcode=200&uninitcode=200")
        none

  unfoldable pub leader : DecodeDirect LeaderResponse → M LeaderResponse
  leader decode = exec_direct env waiting c decode get (codes "sys/leader") none
