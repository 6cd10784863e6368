-- ===== src/Execute/Login.antt =====
-- Why re-authentication does not recurse: a login goes past the upkeep of the token.
use vault_client_rs.Prelude.{◌≡◌, true, Option, ◌++◌}
use vault_client_rs.Prelude.Text.{Text, codes, starts_with}
use vault_client_rs.Json.{Json}
use vault_client_rs.Client.{VaultClient}
use vault_client_rs.Effect.{Env, Method, World}
use vault_client_rs.Request.{execute_raw}
use vault_client_rs.Prelude.Search.{contains-append}
use vault_client_rs.Execute.{is_login, execute}

-- The path of a login below any mount.
pub is_login-login :
    (mount rest : Text) → is_login (codes "auth/" ++ (mount ++ (codes "/login" ++ rest))) ≡ true
unfolding is_login starts_with
is_login-login mount rest = contains-append (codes "/login") (codes "auth/" ++ mount) rest

-- A request to such a path is sent as it is, without a look at the token.
pub execute-login :
    (env : Env) (waiting : World → World) (c : VaultClient) (method : Method) (path : Text)
    (body : Option Json) (w : World)
    → is_login path ≡ true
    → execute env waiting c method path body w ≡ execute_raw env c method path body w
unfolding execute
execute-login env waiting c method path body w h = simp h
