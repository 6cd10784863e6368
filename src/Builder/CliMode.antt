-- ===== src/Builder/CliMode.antt =====
-- `cli_mode` of the builder in client/async_client.rs, and `VAULT_CLI_MODE` of its environment, by what the client that is built does.
use vault_client_rs.Prelude.{
  ◌+◌, ◌≤◌, ◌≡◌, sym, ap, ◌∙◌, true, false, Option, some, inr, length, arith,
}
use vault_client_rs.Prelude.Text.{Text}
use vault_client_rs.Json.{Json}
use vault_client_rs.Effect.{Env, Method, World}
use vault_client_rs.Request.{execute_raw}
use vault_client_rs.Request.Within.{execute_raw-Within}
use vault_client_rs.Builder.{ClientBuilder, Libraries, Built, config_of, set_cli_mode, build}
use vault_client_rs.Builder.FromEnv.{
  Environment, is_on, from_env, with_cli_mode, from_env-with_cli_mode,
}

build-config :
    (libs : Libraries) (b : ClientBuilder) (x : Built)
    → build libs b ≡ inr x
    → x.client.inner.config ≡ config_of b
unfolding build
build-config libs b x e = ground arith

-- A client built in CLI mode sends at most one request for each raw request, so it never retries, and
-- does not retry a sealed vault.
cli_mode-one_request :
    (libs : Libraries) (b : ClientBuilder) (x : Built) (env : Env) (method : Method) (path : Text)
    (body : Option Json) (w : World)
    → build libs (set_cli_mode true b) ≡ inr x
    → (length (execute_raw env x.client method path body w).1.sent ≤ length w.sent + 1)
      × (x.client.inner.config.retry_on_sealed ≡ false)
cli_mode-one_request libs b x env method path body w e =
    let c = build-config libs (set_cli_mode true b) x e in
    let h = execute_raw-Within env x.client method path body w in
    (unfold config_of set_cli_mode in ground (arith, c, h.0.fewer))

-- A client built from an environment whose `VAULT_CLI_MODE` is `1`, or `true` in any case, sends at most
-- one request for each raw request, whatever `VAULT_MAX_RETRIES` and the rest of the environment are,
-- and does not retry a sealed vault.
pub from_env-one_request :
    (libs : Libraries) (e : Environment) (v : Text) (x : Built) (env : Env) (method : Method)
    (path : Text) (body : Option Json) (w : World)
    → is_on (some v) ≡ true
    → build libs (from_env (with_cli_mode v e)) ≡ inr x
    → (length (execute_raw env x.client method path body w).1.sent ≤ length w.sent + 1)
      × (x.client.inner.config.retry_on_sealed ≡ false)
from_env-one_request libs e v x env method path body w on built =
    cli_mode-one_request libs (from_env e) x env method path body w
      (sym (ap (build libs) (from_env-with_cli_mode e v on)) ∙ built)
