-- ===== src/Examples/Engines.antt =====
-- Runs of the secrets engines, of the system backend and of the `exec_*` functions.
use vault_client_rs.Prelude.{◌≡◌, refl, none, some, List, [], ◌∷◌, ◌⊎◌, inr, arith}
use vault_client_rs.Prelude.Text.{Text, codes, starts_with}
use mathlib.Core.List.{Perm}
use vault_client_rs.Json.{null}
use vault_client_rs.VaultError.{ReqwestError}
use vault_client_rs.CircuitBreaker
use vault_client_rs.CircuitBreaker.{check}
use vault_client_rs.Effect.{get, Response, World, ok}
use vault_client_rs.Retry.{send_with_retry}
use vault_client_rs.Request.{execute_raw}
use vault_client_rs.Token.{ensure_valid_token}
use vault_client_rs.Token.Bounded.{IsBounded, IsCooperative}
use vault_client_rs.Execute.{
  execute, exec_with_data, exec_with_auth, exec_patch, exec_empty, exec_direct, exec_list,
}
use vault_client_rs.Execute.Bounded.{whole, exec_all-IsBounded}
use vault_client_rs.Wire.{Decode}
use vault_client_rs.Engines.Pki.{read_crl}
use vault_client_rs.Sys.Raft.{raft_snapshot, raft_snapshot_restore}
use vault_client_rs.Sys.Raft.Snapshot.{IsOnce, raft_snapshot_restore-IsOnce}
use vault_client_rs.Sys.Rekey.{VersionHistoryEntry, VersionHistoryResponse, version_history}
use vault_client_rs.Sys.Rekey.Versions.{IsSorted, AllStamped, version_history-IsSorted}
use vault_client_rs.Examples.{server, some_client, some_world}

-- A client without a token.
abbrev bare : World
bare = record some_world { token = none }

abbrev envelope : {T : Type 0} → T → Decode T
envelope t r = inr (record {
  request_id = none;
  lease_id = none;
  lease_duration = none;
  renewable = none;
  data_field = some t;
  auth = none;
  warnings = none;
  wrap_info = none;
})

alone : IsCooperative 0 0 (λ w. w) some_client
alone = record { waits = λ w. ground arith; logs_in = λ m w e. absurd (cc e) }

exec_all-IsBounded_example :
    let env = server 503 in
    let path = codes "kv/a" in
    let n = whole env 0 0 (λ w. w) some_client alone in
    IsBounded n some_world
      (exec_with_data env (λ w. w) some_client (env.json_value) get path none some_world)
    × IsBounded n some_world
        (exec_with_auth env (λ w. w) some_client (env.json_value) get path none some_world)
    × IsBounded n some_world
        (exec_patch env (λ w. w) some_client (env.json_value) path null some_world)
    × IsBounded n some_world (exec_empty env (λ w. w) some_client get path none some_world)
    × IsBounded n some_world
        (exec_direct env (λ w. w) some_client (λ r. inr null) get path none some_world)
    × IsBounded n some_world (exec_list env (λ w. w) some_client path some_world)
exec_all-IsBounded_example =
    exec_all-IsBounded (server 503) 0 0 (λ w. w) some_client alone ((server 503).json_value)
      (λ r. inr null) get (codes "kv/a") none null some_world

raft_snapshot_restore-IsOnce_example :
    IsOnce some_world
      (raft_snapshot_restore (server 503) (λ w. w) some_client (codes "snap") some_world)
raft_snapshot_restore-IsOnce_example =
    raft_snapshot_restore-IsOnce (server 503) (λ w. w) some_client (codes "snap") some_world

-- The bytes of a body, none for one that is missing.
abbrev bytes : Response → ReqwestError ⊎ Text
bytes r = inr (codes "no snapshot")

-- The body of a 404 is taken for the snapshot, and for the revocation list.
no_snapshot :
    (raft_snapshot (server 404) (λ w. w) some_client bytes bare).0 ≡ ok (codes "no snapshot")
unfolding raft_snapshot execute ensure_valid_token execute_raw send_with_retry check starts_with
    CircuitBreaker.new
no_snapshot = refl

no_crl :
    (read_crl (server 404) (λ w. w) some_client (codes "pki") bytes bare).0
    ≡ ok (codes "no snapshot")
unfolding read_crl execute ensure_valid_token execute_raw send_with_retry check starts_with
    CircuitBreaker.new
no_crl = refl

abbrev entry : Text → VersionHistoryEntry
entry at = record {
  version = [];
  timestamp_installed = at;
  build_date = none;
  previous_version = none;
}

abbrev history : VersionHistoryResponse
history = record {
  key_info = (codes "1.15", entry (codes "2024-02")) ∷ (codes "1.9", entry (codes "2023-11")) ∷ [];
}

abbrev after_history : World
after_history =
    (exec_with_data (server 200) (λ w. w) some_client (envelope history) get
      (codes "sys/version-history") none bare).1

history_answers :
    exec_with_data
      (server 200)
      (λ w. w)
      some_client
      (envelope history)
      get
      (codes "sys/version-history")
      none
      bare
    ≡ (ok history, after_history)
unfolding exec_with_data execute ensure_valid_token execute_raw send_with_retry check starts_with
    CircuitBreaker.new
history_answers = refl

version_history-IsSorted_example :
    (es stamped : List VersionHistoryEntry) × (version_history
        (server 200)
        (λ w. w)
        some_client
        (envelope history)
        bare
      ≡ (ok es, after_history))
    × IsSorted es
    × AllStamped history.key_info stamped
    × Perm es stamped
version_history-IsSorted_example =
    version_history-IsSorted (server 200) (λ w. w) some_client (envelope history) history bare
      after_history history_answers
