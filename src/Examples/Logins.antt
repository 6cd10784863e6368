-- ===== src/Examples/Logins.antt =====
-- Runs of the logins and of the auth methods.
use vault_client_rs.Prelude.{arith, none, ◌+◌, ◌*◌, some, [], ◌∷◌, ◌≡◌, refl}
use vault_client_rs.Prelude.Text.{codes, starts_with, contains}
use vault_client_rs.CircuitBreaker
use vault_client_rs.CircuitBreaker.{check}
use vault_client_rs.EncodePath.{encode_path}
use vault_client_rs.Effect.{World, get, ok}
use vault_client_rs.Retry.{send_with_retry}
use vault_client_rs.Request.{execute_raw}
use vault_client_rs.Token.{update_token_from_auth, try_re_authenticate}
use vault_client_rs.Execute.{execute, exec_with_auth, exec_with_data}
use vault_client_rs.Auth.{Login, approle, userpass, login, login_path, with_method, install}
use vault_client_rs.Auth.Installed.{
  LoginPost, RenewedPost, login-with_method, login-LoginPost, re_authenticate-twice,
}
use vault_client_rs.Auth.Bounded.{installed-IsBounded}
use vault_client_rs.Token.Bounded.{IsBounded}
use vault_client_rs.Examples.{server, some_client, some_world, some_auth}

abbrev role : Login
role = approle (codes "role") (codes "secret") (codes "approle")

abbrev user : Login
user = userpass (codes "ann") (codes "pw") (codes "userpass")

-- The callback really is called twice.
twice :
    (try_re_authenticate
      (install (server 200) (λ w. w) role some_client)
      some_world).1.token_changes
    ≡ some_auth ∷ some_auth ∷ []
unfolding try_re_authenticate install login update_token_from_auth exec_with_auth execute
    execute_raw send_with_retry check CircuitBreaker.new starts_with contains login_path encode_path
twice = refl

login-with_method_example :
    login
      (server 200)
      (λ w. w)
      user
      (with_method (some (λ view w. (ok some_auth, w))) some_client)
      some_world
    ≡ login (server 200) (λ w. w) user some_client some_world
login-with_method_example =
    login-with_method (server 200) (λ w. w) some_client user (some (λ view w. (ok some_auth, w)))
      some_world

login-LoginPost_example :
    LoginPost some_client some_world (login (server 200) (λ w. w) role some_client some_world)
login-LoginPost_example = login-LoginPost (server 200) (λ w. w) some_client role some_world

re_authenticate-twice_example :
    RenewedPost some_client some_world
      (try_re_authenticate (install (server 200) (λ w. w) role some_client) some_world)
re_authenticate-twice_example =
    re_authenticate-twice (server 200) (λ w. w) role some_client some_world

waits_alone : (w : World) → IsBounded {A = Unit {0}} 0 w (ok tt, w)
waits_alone w = ground arith

installed-IsBounded_example :
    IsBounded (0 + 3 * (some_client.inner.config.max_retries + 1)) some_world (
      exec_with_data
        (server 500)
        (λ w. w)
        (install (server 500) (λ w. w) role some_client)
        ((server 500).json_value)
        get
        (codes "kv/a")
        none
        some_world)
installed-IsBounded_example =
    installed-IsBounded (server 500) 0 (λ w. w) role some_client ((server 500).json_value) get
      (codes "kv/a") none some_world waits_alone
