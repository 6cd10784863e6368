-- ===== src/Operations/SysBlocking.antt =====
-- blocking/mod.rs: the system backend.
use vault_client_rs.Prelude.{Bool}
use vault_client_rs.Effect.{M}
use vault_client_rs.Operations.{block_on}
use vault_client_rs.Operations.Sys.{SysOperations}

-- `SysHandler` of blocking/mod.rs.
unfoldable pub blocking_sys : {T : Type 0} → Bool → SysOperations M T → SysOperations M T
unfolding block_on
blocking_sys in_runtime o = record {
  health = block_on in_runtime o.health;
  leader = block_on in_runtime o.leader;
  seal_status = block_on in_runtime o.seal_status;
  seal = block_on in_runtime o.seal;
  unseal = λ a. block_on in_runtime (o.unseal a);
  init = λ a. block_on in_runtime (o.init a);
  step_down = block_on in_runtime o.step_down;
  list_mounts = block_on in_runtime o.list_mounts;
  mount = λ a b. block_on in_runtime (o.mount a b);
  unmount = λ a. block_on in_runtime (o.unmount a);
  tune_mount = λ a b. block_on in_runtime (o.tune_mount a b);
  read_mount_tune = λ a. block_on in_runtime (o.read_mount_tune a);
  list_auth_mounts = block_on in_runtime o.list_auth_mounts;
  enable_auth = λ a b. block_on in_runtime (o.enable_auth a b);
  disable_auth = λ a. block_on in_runtime (o.disable_auth a);
  read_auth_tune = λ a. block_on in_runtime (o.read_auth_tune a);
  list_policies = block_on in_runtime o.list_policies;
  read_policy = λ a. block_on in_runtime (o.read_policy a);
  write_policy = λ a b. block_on in_runtime (o.write_policy a b);
  delete_policy = λ a. block_on in_runtime (o.delete_policy a);
  read_lease = λ a. block_on in_runtime (o.read_lease a);
  renew_lease = λ a b. block_on in_runtime (o.renew_lease a b);
  revoke_lease = λ a. block_on in_runtime (o.revoke_lease a);
  revoke_prefix = λ a. block_on in_runtime (o.revoke_prefix a);
  list_audit_devices = block_on in_runtime o.list_audit_devices;
  enable_audit = λ a b. block_on in_runtime (o.enable_audit a b);
  disable_audit = λ a. block_on in_runtime (o.disable_audit a);
  unwrap = λ a. block_on in_runtime (o.unwrap a);
  wrap_lookup = λ a. block_on in_runtime (o.wrap_lookup a);
  capabilities = λ a b. block_on in_runtime (o.capabilities a b);
  capabilities_self = λ a. block_on in_runtime (o.capabilities_self a);
  key_status = block_on in_runtime o.key_status;
  rotate_encryption_key = block_on in_runtime o.rotate_encryption_key;
  list_plugins = λ a. block_on in_runtime (o.list_plugins a);
  read_plugin = λ a b. block_on in_runtime (o.read_plugin a b);
  register_plugin = λ a. block_on in_runtime (o.register_plugin a);
  deregister_plugin = λ a b. block_on in_runtime (o.deregister_plugin a b);
  reload_plugin = λ a. block_on in_runtime (o.reload_plugin a);
  raft_config = block_on in_runtime o.raft_config;
  raft_autopilot_state = block_on in_runtime o.raft_autopilot_state;
  raft_remove_peer = λ a. block_on in_runtime (o.raft_remove_peer a);
  raft_snapshot = block_on in_runtime o.raft_snapshot;
  raft_snapshot_restore = λ a. block_on in_runtime (o.raft_snapshot_restore a);
  in_flight_requests = block_on in_runtime o.in_flight_requests;
  list_namespaces = block_on in_runtime o.list_namespaces;
  create_namespace = λ a. block_on in_runtime (o.create_namespace a);
  delete_namespace = λ a. block_on in_runtime (o.delete_namespace a);
  list_rate_limit_quotas = block_on in_runtime o.list_rate_limit_quotas;
  read_rate_limit_quota = λ a. block_on in_runtime (o.read_rate_limit_quota a);
  write_rate_limit_quota = λ a b. block_on in_runtime (o.write_rate_limit_quota a b);
  delete_rate_limit_quota = λ a. block_on in_runtime (o.delete_rate_limit_quota a);
  rekey_init = λ a. block_on in_runtime (o.rekey_init a);
  rekey_status = block_on in_runtime o.rekey_status;
  rekey_cancel = block_on in_runtime o.rekey_cancel;
  rekey_update = λ a b. block_on in_runtime (o.rekey_update a b);
  generate_root_init = λ a. block_on in_runtime (o.generate_root_init a);
  generate_root_status = block_on in_runtime o.generate_root_status;
  generate_root_cancel = block_on in_runtime o.generate_root_cancel;
  generate_root_update = λ a b. block_on in_runtime (o.generate_root_update a b);
  remount = λ a b. block_on in_runtime (o.remount a b);
  metrics_json = block_on in_runtime o.metrics_json;
  host_info = block_on in_runtime o.host_info;
  internal_counters_activity = block_on in_runtime o.internal_counters_activity;
  version_history = block_on in_runtime o.version_history;
  rewrap = λ a. block_on in_runtime (o.rewrap a);
}
