-- ===== src/AuthAdmin/Token/Stored.antt =====
-- What api/auth/token.rs does with the tokens that it is given.
use vault_client_rs.Prelude.{arith, ◌≡◌, refl, false, Option, some}
use vault_client_rs.Prelude.Text.{Text, codes}
use vault_client_rs.Json.{Json}
use vault_client_rs.VaultResponse.{AuthInfo, VaultResponse}
use vault_client_rs.Client.{VaultClient}
use vault_client_rs.Effect.{Env, post, World, ok}
use vault_client_rs.Token.{update_token_from_auth}
use vault_client_rs.Auth.Installed.{IsLoggedIn}
use vault_client_rs.Execute.{exec_with_auth}
use vault_client_rs.AuthAdmin.Token.{
  TokenCreateRequest, token_create_request_body, increment_body, renew_self, create, create_orphan,
}

-- When the server answers with a token: `renew_self` stores it in the client and calls the callback once
-- (if the lock is not poisoned), `create` and `create_orphan` return it and change nothing more than
-- the request did, so the client goes on with its own token.
pub tokens-stored :
    (env : Env) (waiting : World → World) (c : VaultClient) (increment : Option Text)
    (params : TokenCreateRequest) (resp : VaultResponse Json) (auth : AuthInfo) (w w1 w2 w3 : World)
    → resp.auth ≡ some auth
    → w1.token_poisoned ≡ false
    → exec_with_auth env waiting c env.json_value post
        (codes "auth/token/renew-self")
        (increment_body increment)
        w
      ≡ (ok resp, w1)
    → exec_with_auth env waiting c env.json_value post
        (codes "auth/token/create")
        (some (token_create_request_body params))
        w
      ≡ (ok resp, w2)
    → exec_with_auth env waiting c env.json_value post
        (codes "auth/token/create-orphan")
        (some (token_create_request_body params))
        w
      ≡ (ok resp, w3)
    → ((renew_self env waiting c increment w).0 ≡ ok auth)
      × IsLoggedIn c auth w1 (renew_self env waiting c increment w).1
      × (create env waiting c params w ≡ (ok auth, w2))
      × (create_orphan env waiting c params w ≡ (ok auth, w3))
tokens-stored env waiting c increment params resp auth w w1 w2 w3 a p h k l = (
  (unfold renew_self in simp (h, a) (unfold update_token_from_auth in simp p refl)),
  (unfold renew_self in simp (h, a) (unfold update_token_from_auth in simp p (ground arith))),
  (unfold create in simp (k, a)),
  (unfold create_orphan in simp (l, a)),
)
