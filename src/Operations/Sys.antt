-- ===== src/Operations/Sys.antt =====
-- api/traits.rs: `SysOperations`.
use vault_client_rs.Prelude.{ℕ, Option, List, ◌⊎◌}
use vault_client_rs.Prelude.Text.{Text}
use vault_client_rs.Json.{Json}
use vault_client_rs.VaultError.{ReqwestError}
use vault_client_rs.VaultResponse.{WrapInfo}
use vault_client_rs.Client.{VaultClient}
use vault_client_rs.Effect.{Env, Response, World, M}
use vault_client_rs.Wire.{Decode, DecodeDirect, HashMap}
use vault_client_rs.Sys.Seal
use vault_client_rs.Sys.Health
use vault_client_rs.Sys.Mounts
use vault_client_rs.Sys.Policy
use vault_client_rs.Sys.Lease
use vault_client_rs.Sys.Audit
use vault_client_rs.Sys.Wrapping
use vault_client_rs.Sys.Plugins
use vault_client_rs.Sys.Raft
use vault_client_rs.Sys.Namespaces
use vault_client_rs.Sys.Quotas
use vault_client_rs.Sys.Rekey
use vault_client_rs.Sys.Seal.{SealStatus, InitParams, InitResponse}
use vault_client_rs.Sys.Health.{HealthResponse, LeaderResponse}
use vault_client_rs.Sys.Mounts.{
  MountConfig, MountInfo, MountTuneParams, MountParams, AuthMountInfo, AuthMountParams,
}
use vault_client_rs.Sys.Policy.{PolicyInfo}
use vault_client_rs.Sys.Lease.{LeaseInfo, LeaseRenewal}
use vault_client_rs.Sys.Audit.{AuditDevice, AuditParams}
use vault_client_rs.Sys.Wrapping.{KeyStatus}
use vault_client_rs.Sys.Plugins.{PluginInfo, RegisterPluginRequest}
use vault_client_rs.Sys.Raft.{RaftConfig, AutopilotState}
use vault_client_rs.Sys.Namespaces.{NamespaceInfo}
use vault_client_rs.Sys.Quotas.{RateLimitQuotaRequest, RateLimitQuota}
use vault_client_rs.Sys.Rekey.{
  RekeyInitRequest, RekeyStatus, GenerateRootInitRequest, GenerateRootStatus, RemountStatus,
  HostInfo, InFlightRequest, VersionHistoryEntry, VersionHistoryResponse,
}

pub record SysOperations (F : Type 0 → Type 0) (T : Type 0) : Type 0 where
  pub health : F HealthResponse
  pub leader : F LeaderResponse
  pub seal_status : F SealStatus
  pub seal : F (Unit {0})
  pub unseal : Text → F SealStatus
  pub init : InitParams → F InitResponse
  pub step_down : F (Unit {0})
  pub list_mounts : F (HashMap MountInfo)
  pub mount : Text → MountParams → F (Unit {0})
  pub unmount : Text → F (Unit {0})
  pub tune_mount : Text → MountTuneParams → F (Unit {0})
  pub read_mount_tune : Text → F MountConfig
  pub list_auth_mounts : F (HashMap AuthMountInfo)
  pub enable_auth : Text → AuthMountParams → F (Unit {0})
  pub disable_auth : Text → F (Unit {0})
  pub read_auth_tune : Text → F MountConfig
  pub list_policies : F (List Text)
  pub read_policy : Text → F PolicyInfo
  pub write_policy : Text → Text → F (Unit {0})
  pub delete_policy : Text → F (Unit {0})
  pub read_lease : Text → F LeaseInfo
  pub renew_lease : Text → Option Text → F LeaseRenewal
  pub revoke_lease : Text → F (Unit {0})
  pub revoke_prefix : Text → F (Unit {0})
  pub list_audit_devices : F (HashMap AuditDevice)
  pub enable_audit : Text → AuditParams → F (Unit {0})
  pub disable_audit : Text → F (Unit {0})
  pub unwrap : Text → F T
  pub wrap_lookup : Text → F WrapInfo
  pub capabilities : Text → List Text → F (HashMap (List Text))
  pub capabilities_self : List Text → F (HashMap (List Text))
  pub key_status : F KeyStatus
  pub rotate_encryption_key : F (Unit {0})
  pub list_plugins : Text → F (List Text)
  pub read_plugin : Text → Text → F PluginInfo
  pub register_plugin : RegisterPluginRequest → F (Unit {0})
  pub deregister_plugin : Text → Text → F (Unit {0})
  pub reload_plugin : Text → F (Unit {0})
  pub raft_config : F RaftConfig
  pub raft_autopilot_state : F AutopilotState
  pub raft_remove_peer : Text → F (Unit {0})
  pub raft_snapshot : F (List ℕ)
  pub raft_snapshot_restore : Text → F (Unit {0})
  pub in_flight_requests : F (HashMap InFlightRequest)
  pub list_namespaces : F (List Text)
  pub create_namespace : Text → F NamespaceInfo
  pub delete_namespace : Text → F (Unit {0})
  pub list_rate_limit_quotas : F (List Text)
  pub read_rate_limit_quota : Text → F RateLimitQuota
  pub write_rate_limit_quota : Text → RateLimitQuotaRequest → F (Unit {0})
  pub delete_rate_limit_quota : Text → F (Unit {0})
  pub rekey_init : RekeyInitRequest → F RekeyStatus
  pub rekey_status : F RekeyStatus
  pub rekey_cancel : F (Unit {0})
  pub rekey_update : Text → Text → F RekeyStatus
  pub generate_root_init : GenerateRootInitRequest → F GenerateRootStatus
  pub generate_root_status : F GenerateRootStatus
  pub generate_root_cancel : F (Unit {0})
  pub generate_root_update : Text → Text → F GenerateRootStatus
  pub remount : Text → Text → F RemountStatus
  pub metrics_json : F Json
  pub host_info : F HostInfo
  pub internal_counters_activity : F Json
  pub version_history : F (List VersionHistoryEntry)
  pub rewrap : Text → F WrapInfo

-- The implementation by the handler, with the decoders of the responses.
unfoldable pub sys_handler :
    {T : Type 0}
    → (env : Env) (waiting : World → World) (c : VaultClient)
      (read_health_response : DecodeDirect HealthResponse)
      (read_leader_response : DecodeDirect LeaderResponse)
      (read_seal_status : DecodeDirect SealStatus) (read_init_response : DecodeDirect InitResponse)
      (read_map_of_mount_info : Decode (HashMap MountInfo)) (read_mount_config : Decode MountConfig)
      (read_map_of_auth_mount_info : Decode (HashMap AuthMountInfo))
      (read_policy_info : Decode PolicyInfo) (read_lease_info : Decode LeaseInfo)
      (read_lease_renewal : DecodeDirect LeaseRenewal)
      (read_map_of_audit_device : Decode (HashMap AuditDevice)) (read_value : Decode T)
      (read_wrap_info : Decode WrapInfo) (read_capability_map : Decode (HashMap (List Text)))
      (read_key_status : Decode KeyStatus) (read_plugin_info : Decode PluginInfo)
      (read_raft_config : Decode RaftConfig) (read_autopilot_state : Decode AutopilotState)
      (bytes : Response → ReqwestError ⊎ Text)
      (read_map_of_in_flight_request : DecodeDirect (HashMap InFlightRequest))
      (read_namespace_info : Decode NamespaceInfo) (read_rate_limit_quota : Decode RateLimitQuota)
      (read_rekey_status : DecodeDirect RekeyStatus)
      (read_generate_root_status : DecodeDirect GenerateRootStatus)
      (read_remount_status : Decode RemountStatus) (read_json_directly : DecodeDirect Json)
      (read_host_info : Decode HostInfo) (read_json : Decode Json)
      (read_version_history_response : Decode VersionHistoryResponse)
    → SysOperations M T
sys_handler env waiting c read_health_response read_leader_response read_seal_status
      read_init_response read_map_of_mount_info read_mount_config read_map_of_auth_mount_info
      read_policy_info read_lease_info read_lease_renewal read_map_of_audit_device read_value
      read_wrap_info read_capability_map read_key_status read_plugin_info read_raft_config
      read_autopilot_state bytes read_map_of_in_flight_request read_namespace_info
      read_rate_limit_quota read_rekey_status read_generate_root_status read_remount_status
      read_json_directly read_host_info read_json read_version_history_response =
    record {
      health = Health.health env waiting c read_health_response;
      leader = Health.leader env waiting c read_leader_response;
      seal_status = Seal.seal_status env waiting c read_seal_status;
      seal = Seal.seal env waiting c;
      unseal = Seal.unseal env waiting c read_seal_status;
      init = Seal.init env waiting c read_init_response;
      step_down = Seal.step_down env waiting c;
      list_mounts = Mounts.list_mounts env waiting c read_map_of_mount_info;
      mount = Mounts.mount env waiting c;
      unmount = Mounts.unmount env waiting c;
      tune_mount = Mounts.tune_mount env waiting c;
      read_mount_tune = Mounts.read_mount_tune env waiting c read_mount_config;
      list_auth_mounts = Mounts.list_auth_mounts env waiting c read_map_of_auth_mount_info;
      enable_auth = Mounts.enable_auth env waiting c;
      disable_auth = Mounts.disable_auth env waiting c;
      read_auth_tune = Mounts.read_auth_tune env waiting c read_mount_config;
      list_policies = Policy.list_policies env waiting c;
      read_policy = Policy.read_policy env waiting c read_policy_info;
      write_policy = Policy.write_policy env waiting c;
      delete_policy = Policy.delete_policy env waiting c;
      read_lease = Lease.read_lease env waiting c read_lease_info;
      renew_lease = Lease.renew_lease env waiting c read_lease_renewal;
      revoke_lease = Lease.revoke_lease env waiting c;
      revoke_prefix = Lease.revoke_prefix env waiting c;
      list_audit_devices = Audit.list_audit_devices env waiting c read_map_of_audit_device;
      enable_audit = Audit.enable_audit env waiting c;
      disable_audit = Audit.disable_audit env waiting c;
      unwrap = Wrapping.unwrap env waiting c read_value;
      wrap_lookup = Wrapping.wrap_lookup env waiting c read_wrap_info;
      capabilities = Wrapping.capabilities env waiting c read_capability_map;
      capabilities_self = Wrapping.capabilities_self env waiting c read_capability_map;
      key_status = Wrapping.key_status env waiting c read_key_status;
      rotate_encryption_key = Wrapping.rotate_encryption_key env waiting c;
      list_plugins = Plugins.list_plugins env waiting c;
      read_plugin = Plugins.read_plugin env waiting c read_plugin_info;
      register_plugin = Plugins.register_plugin env waiting c;
      deregister_plugin = Plugins.deregister_plugin env waiting c;
      reload_plugin = Plugins.reload_plugin env waiting c;
      raft_config = Raft.raft_config env waiting c read_raft_config;
      raft_autopilot_state = Raft.raft_autopilot_state env waiting c read_autopilot_state;
      raft_remove_peer = Raft.raft_remove_peer env waiting c;
      raft_snapshot = Raft.raft_snapshot env waiting c bytes;
      raft_snapshot_restore = Raft.raft_snapshot_restore env waiting c;
      in_flight_requests = Rekey.in_flight_requests env waiting c read_map_of_in_flight_request;
      list_namespaces = Namespaces.list_namespaces env waiting c;
      create_namespace = Namespaces.create_namespace env waiting c read_namespace_info;
      delete_namespace = Namespaces.delete_namespace env waiting c;
      list_rate_limit_quotas = Quotas.list_rate_limit_quotas env waiting c;
      read_rate_limit_quota = Quotas.read_rate_limit_quota env waiting c read_rate_limit_quota;
      write_rate_limit_quota = Quotas.write_rate_limit_quota env waiting c;
      delete_rate_limit_quota = Quotas.delete_rate_limit_quota env waiting c;
      rekey_init = Rekey.rekey_init env waiting c read_rekey_status;
      rekey_status = Rekey.rekey_status env waiting c read_rekey_status;
      rekey_cancel = Rekey.rekey_cancel env waiting c;
      rekey_update = Rekey.rekey_update env waiting c read_rekey_status;
      generate_root_init = Rekey.generate_root_init env waiting c read_generate_root_status;
      generate_root_status = Rekey.generate_root_status env waiting c read_generate_root_status;
      generate_root_cancel = Rekey.generate_root_cancel env waiting c;
      generate_root_update = Rekey.generate_root_update env waiting c read_generate_root_status;
      remount = Rekey.remount env waiting c read_remount_status;
      metrics_json = Rekey.metrics_json env waiting c read_json_directly;
      host_info = Rekey.host_info env waiting c read_host_info;
      internal_counters_activity = Rekey.internal_counters_activity env waiting c read_json;
      version_history = Rekey.version_history env waiting c read_version_history_response;
      rewrap = Rekey.rewrap env waiting c;
    }
