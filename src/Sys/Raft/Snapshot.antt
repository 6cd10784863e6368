-- ===== src/Sys/Raft/Snapshot.antt =====
-- The operations of api/sys/raft.rs and api/pki.rs that go past the `exec_*` functions.
use vault_client_rs.Prelude.{◌+◌, ◌≤◌, ◌≡◌, ◌≢◌, refl, ◌⊎◌, inl, inr, length, arith, ◌++◌}
use vault_client_rs.Prelude.Text.{Text, codes}
use vault_client_rs.VaultError.{ReqwestError}
use vault_client_rs.Client.{VaultClient}
use vault_client_rs.Effect.{Env, Response, World, Exit, ok, panicked, send, ◌>>=◌}
use vault_client_rs.Retry.Frame.{SameClient}
use vault_client_rs.Request.{inject_headers}
use vault_client_rs.Sys.Raft.{restore_request, restore_outcome, send_once, raft_snapshot_restore}

-- What one attempt may do: send a request at most, and nothing to the client's own state.
pub record IsOnce (w : World) (x : Exit (Unit {0}) × World) : Type 0 where
  pub returns : x.0 ≢ panicked
  pub fewer : length x.1.sent ≤ length w.sent + 1
  pub if_ok : (x.0 ≢ ok tt) ⊎ (length x.1.sent ≡ length w.sent + 1)
  pub sleeps : x.1.sleeps ≡ w.sleeps
  pub client : SameClient w x.1

restore_outcome_returns :
    (env : Env) (o : ReqwestError ⊎ Response) → restore_outcome env o ≢ panicked
unfolding restore_outcome
restore_outcome_returns env (inl e) = ground arith
restore_outcome_returns env (inr resp) = ground arith

parses : (o : Text ⊎ Text) → ((e : Text) × (o ≡ inl e)) ⊎ ((u : Text) × (o ≡ inr u))
parses (inl e) = inl (e, refl)
parses (inr u) = inr (u, refl)

send_once-IsOnce :
    (env : Env) (c : VaultClient) (u snapshot : Text) (w : World)
    → IsOnce w ((inject_headers c (restore_request u snapshot) >>= send_once env) w)
unfolding inject_headers send_once send
send_once-IsOnce env c u snapshot w =
    ground
      (arith, restore_outcome_returns env (env.send (length w.sent) (restore_request u snapshot)))

-- On every path: restoring a snapshot does not panic, sends at most one request (exactly one if it
-- succeeds), never sleeps, and leaves the token, the circuit breaker and the callbacks alone: it is not
-- retried, not guarded by the breaker nor recorded with it, and does not keep the token valid.
pub raft_snapshot_restore-IsOnce :
    (env : Env) (waiting : World → World) (c : VaultClient) (snapshot : Text) (w : World)
    → IsOnce w (raft_snapshot_restore env waiting c snapshot w)
unfolding raft_snapshot_restore
raft_snapshot_restore-IsOnce env waiting c snapshot w =
    elim (parses (env.parse_url (c.inner.base_url ++ codes "v1/sys/storage/raft/snapshot"))) [
      | inl (e, h) ↦ rw (h, raft_snapshot_restore) (ground arith)
      | inr (u, h) ↦ rw (h, raft_snapshot_restore) (send_once-IsOnce env c u snapshot w)
    ]
