-- ===== src/Sys/Raft.antt =====
-- api/sys/raft.rs, types/sys.rs: the Raft endpoints of the system backend, and its types.
pub mod Snapshot
use vault_client_rs.Prelude.{
  ℕ, Bool, none, some, List, inl, inr, ◌++◌, ◌∷◌, ◌⊎◌, [], ◌&&◌, ◌==◌, leb, if◌then◌else◌,
}
use vault_client_rs.Prelude.Text.{Text, codes}
use vault_client_rs.Json.{string, object, end}
use vault_client_rs.VaultError.{ReqwestError, http, auth_required, permission_denied, api, url}
use vault_client_rs.Client.{VaultClient}
use vault_client_rs.Request.{inject_headers}
use vault_client_rs.Token.{decoded}
use vault_client_rs.Effect.{
  Exit, Env, get, post, Request, Response, World, M, ok, err, send, extract_errors, ◌>>=◌,
}
use vault_client_rs.Execute.{execute, exec_with_data, exec_empty}
use vault_client_rs.Wire.{Decode, HashMap, member}

pub record RaftServer : Type 0 where
  pub node_id : Text
  pub address : Text
  pub leader : Bool
  pub voter : Bool

pub record RaftConfig : Type 0 where
  pub servers : List RaftServer
  pub index : ℕ

pub record AutopilotServerState : Type 0 where
  pub id : Text
  pub name : Text
  pub address : Text
  pub node_status : Text
  pub status : Text
  pub healthy : Bool
  pub last_contact : Text
  pub last_index : ℕ
  pub last_term : ℕ
  pub voter : Bool
  pub leader : Bool

pub record AutopilotState : Type 0 where
  pub healthy : Bool
  pub failure_tolerance : ℕ
  pub leader : Text
  pub voters : List Text
  pub servers : HashMap AutopilotServerState

abbrev restore_request : Text → Text → Request
restore_request u snapshot = record {
  method = post;
  url = u;
  headers = (codes "X-Vault-Request", codes "true") ∷ [];
  body = some (string snapshot);
}

-- The match on the outcome of `req.send()` and on the status of a response.
unfoldable restore_outcome : Env → ReqwestError ⊎ Response → Exit (Unit {0})
restore_outcome env (inl e) = err (http e)
restore_outcome env (inr resp) =
    if leb 200 resp.status && leb resp.status 299
    then ok tt
    else if resp.status == 401
    then err auth_required
    else if resp.status == 403
    then err (permission_denied (extract_errors env resp))
    else err (api resp.status (extract_errors env resp))

unfoldable send_once : Env → Request → M (Unit {0})
unfolding restore_outcome
send_once env req w = let (r, w') = send env req w in (restore_outcome env r, w')

module _ (env : Env) (waiting : World → World) (c : VaultClient) where
  unfoldable pub raft_config : Decode RaftConfig → M RaftConfig
  raft_config decode =
      exec_with_data env waiting c decode get (codes "sys/storage/raft/configuration") none

  unfoldable pub raft_autopilot_state : Decode AutopilotState → M AutopilotState
  raft_autopilot_state decode =
      exec_with_data env waiting c decode get (codes "sys/storage/raft/autopilot/state") none

  unfoldable pub raft_remove_peer : Text → M (Unit {0})
  raft_remove_peer server_id =
      exec_empty env waiting c post (codes "sys/storage/raft/remove-peer")
        (some (object (member "server_id" server_id end)))

  -- With `Response::bytes`.
  unfoldable pub raft_snapshot : (Response → ReqwestError ⊎ Text) → M Text
  raft_snapshot bytes w =
      (do
        resp ← execute env waiting c get (codes "sys/storage/raft/snapshot") none
        decoded (bytes resp))
        w

  -- The bytes of the snapshot, which are not JSON, stand as a string in the body of the request.
  unfoldable pub raft_snapshot_restore : Text → M (Unit {0})
  unfolding send_once
  raft_snapshot_restore snapshot w =
      elim (env.parse_url (c.inner.base_url ++ codes "v1/sys/storage/raft/snapshot")) [
        | inl e ↦ (err (url e), w)
        | inr u ↦ (do req ← inject_headers c (restore_request u snapshot); send_once env req) w
      ]
