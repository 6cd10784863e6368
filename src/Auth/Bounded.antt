-- ===== src/Auth/Bounded.antt =====
-- How many requests a call of client/async_client.rs sends for a client with one of the auth methods of
-- api/auth/mod.rs.
use vault_client_rs.Prelude.{ℕ, ◌+◌, ◌*◌, ◌≡◌, true, Option, none, some, ◌⊎◌, arith, subst}
use vault_client_rs.Prelude.Text.{Text}
use vault_client_rs.Json.{Json}
use vault_client_rs.VaultError.{ReqwestError, empty_response}
use vault_client_rs.VaultResponse.{AuthInfo, VaultResponse}
use vault_client_rs.Client.{Overrides, VaultClient}
use vault_client_rs.Effect.{Env, Method, post, Response, World, M, ok, ok_or}
use vault_client_rs.Request.Within.{budget}
use vault_client_rs.Token.{update_token_from_auth}
use vault_client_rs.Token.Bounded.{
  IsBounded, IsCooperative, IsBounded-bind, IsBounded-weaken, execute_raw-IsBounded,
  decoded-IsBounded, update_token-IsBounded,
}
use vault_client_rs.Execute.{is_login, found, execute, exec_with_auth, exec_with_data}
use vault_client_rs.Execute.Login.{execute-login}
use vault_client_rs.Execute.Bounded.{ok_or-IsBounded, found-IsBounded, exec_with_data-IsBounded}
use vault_client_rs.Auth.{Login, login, log_in, with_method, install}
use vault_client_rs.Auth.Installed.{login_induction}

module _ (env : Env) (waiting : World → World) (c : VaultClient) where
  exec_with_auth-IsBounded :
      (path : Text) (body : Option Json) (w : World)
      → is_login path ≡ true
      → IsBounded (budget env c) w (exec_with_auth env waiting c env.json_value post path body w)
  unfolding exec_with_auth
  exec_with_auth-IsBounded path body w h =
      IsBounded-weaken (budget env c + (0 + 0)) _ w _ (omega arith) (
        IsBounded-bind (budget env c) (0 + 0) w (execute env waiting c post path body) _
          (rw (execute-login env waiting c post path body w h)
            (execute_raw-IsBounded env c post path body w))
          λ resp w'.
            IsBounded-bind 0 0 w' (found path resp) _ (found-IsBounded path resp w')
              λ _ w''. decoded-IsBounded (env.json_value resp) w'')

  log_in-IsBounded :
      (path : Text) (body : Option Json) (w : World)
      → is_login path ≡ true
      → IsBounded (budget env c) w (log_in env waiting c path body w)
  unfolding log_in
  log_in-IsBounded path body w h =
      IsBounded-weaken (budget env c + (0 + (0 + 0))) _ w _ (omega arith) (
        IsBounded-bind (budget env c) (0 + (0 + 0)) w
          (exec_with_auth env waiting c env.json_value post path body) _
          (exec_with_auth-IsBounded path body w h)
          λ resp w'.
            IsBounded-bind 0 (0 + 0) w' (ok_or resp.auth empty_response) _
              (ok_or-IsBounded resp.auth empty_response w')
              λ auth w''.
                IsBounded-bind 0 0 w'' (update_token_from_auth c auth) _
                  (update_token-IsBounded c auth w'') λ _ w3. ground arith)

  login-IsBounded : (l : Login) (w : World) → IsBounded (budget env c) w (login env waiting l c w)
  login-IsBounded l w =
      login_induction env waiting (λ m. IsBounded (budget env c) w (m c w))
        (λ path body h. log_in-IsBounded path body w h) (λ e. ground arith) l

some-injective : {A : Type 0} (a b : A) → some a ≡ some b → a ≡ b
some-injective a b e = cc e

installed-IsCooperative :
    (env : Env) (j : ℕ) (waiting : World → World) (l : Login) (c : VaultClient)
    → ((w : World) → IsBounded {A = Unit {0}} j w (ok tt, waiting w))
    → IsCooperative j (budget env c) waiting (install env waiting l c)
unfolding install
installed-IsCooperative env j waiting l c waits = record {
  waits = waits;
  logs_in = λ m w e.
      subst (λ (f : Overrides → M AuthInfo). IsBounded (budget env c) w (f c.view w))
        (some-injective _ m e) (login-IsBounded env waiting (with_method none c) l w);
}

-- For a client with one of the built-in auth methods, a call for data never panics and sends at most
-- three times `max_retries` + 1 requests, beside the `j` that other callers send while it waits for
-- them: a renewal, a login and the request itself.
pub installed-IsBounded :
    (env : Env) (j : ℕ) (waiting : World → World) (l : Login) (c : VaultClient) {T : Type 0}
    (deserialize : Response → ReqwestError ⊎ VaultResponse T) (method : Method) (path : Text)
    (body : Option Json) (w : World)
    → ((w' : World) → IsBounded {A = Unit {0}} j w' (ok tt, waiting w'))
    → IsBounded
        (j + 3 * (c.inner.config.max_retries + 1))
        w
        (exec_with_data env waiting (install env waiting l c) deserialize method path body w)
installed-IsBounded env j waiting l c deserialize method path body w waits =
    let client = install env waiting l c in
    IsBounded-weaken (j + (budget env c + budget env c) + budget env c) _ w _ (omega arith) (
      unfold install in
      exec_with_data-IsBounded env j (budget env c) waiting client
        (installed-IsCooperative env j waiting l c waits) deserialize method path body w)
