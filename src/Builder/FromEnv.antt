-- ===== src/Builder/FromEnv.antt =====
-- client/async_client.rs: `ClientBuilder::from_env` and `read_vault_token_file`.
use vault_client_rs.Prelude.{
  ℕ, ◌^◌, Bool, true, false, ◌&&◌, ◌||◌, Option, none, some, [], ◌∷◌, ◌++◌, map, ltb, leb, ◌+◌,
  if◌then◌else◌, ◌≡◌, refl,
}
use vault_client_rs.Prelude.Text.{Text, codes, text_eq, ends_with, parse_u64}
use vault_client_rs.Prelude.Time.{from_secs}
use vault_client_rs.Prelude.Trim.{trim}
use vault_client_rs.Builder.{ClientBuilder, default_builder, set_cli_mode}

-- The process's environment: its variables that are Unicode, the user's directory that the home crate
-- finds, and what `fs::read` and `fs::read_to_string` read.
pub record Environment : Type 0 where
  pub var : Text → Option Text
  pub home_dir : Option Text
  pub read : Text → Option Text
  pub read_to_string : Text → Option Text

and_then : {A B : Type 0} → (A → Option B) → Option A → Option B
and_then f none = none
and_then f (some x) = f x

or_else : {A : Type 0} → Option A → Option A → Option A
or_else none y = y
or_else (some x) y = some x

-- `eq_ignore_ascii_case`.
to_ascii_lowercase : ℕ → ℕ
to_ascii_lowercase c = if leb 65 c && leb c 90 then c + 32 else c

eq_ignore_ascii_case : Text → Text → Bool
unfolding to_ascii_lowercase
eq_ignore_ascii_case s t = text_eq (map to_ascii_lowercase s) (map to_ascii_lowercase t)

unfoldable pub is_on : Option Text → Bool
unfolding eq_ignore_ascii_case
is_on none = false
is_on (some v) = text_eq v (codes "1") || eq_ignore_ascii_case v (codes "true")

-- `Path::join` with a relative path.
join : Text → Text → Text
unfolding ends_with
join [] name = name
join (c ∷ path) name =
    if ends_with b'/' (c ∷ path) then (c ∷ path) ++ name else (c ∷ path) ++ codes "/" ++ name

unless_blank : Text → Option Text
unless_blank [] = none
unless_blank (c ∷ s) = some (c ∷ s)

unfoldable pub read_vault_token_file : Environment → Option Text
unfolding and_then join trim unless_blank
read_vault_token_file e =
    and_then
      (λ home.
        and_then (λ raw. unless_blank (trim raw))
          (e.read_to_string (join home (codes ".vault-token"))))
      e.home_dir

-- `parse::<u32>`, which fails on larger numbers.
parse_u32 : Text → Option ℕ
unfolding parse_u64 and_then
parse_u32 s = and_then (λ n. if ltb n (2 ^ 32) then some n else none) (parse_u64 s)

seconds : Text → Option ℕ
unfolding parse_u64 and_then
seconds s = and_then (λ n. some (from_secs n)) (parse_u64 s)

unfoldable pub from_env : Environment → ClientBuilder
unfolding and_then or_else is_on read_vault_token_file parse_u32 seconds
from_env e =
    let cli_mode = is_on (e.var (codes "VAULT_CLI_MODE")) in
    record default_builder {
      address = e.var (codes "VAULT_ADDR");
      token = or_else (e.var (codes "VAULT_TOKEN")) (read_vault_token_file e);
      namespace = e.var (codes "VAULT_NAMESPACE");
      timeout = and_then seconds (e.var (codes "VAULT_CLIENT_TIMEOUT"));
      max_retries =
          (if cli_mode then some 0 else and_then parse_u32 (e.var (codes "VAULT_MAX_RETRIES")));
      wrap_ttl = e.var (codes "VAULT_WRAP_TTL");
      danger_disable_tls_verify =
          is_on
            (or_else (e.var (codes "VAULT_SKIP_VERIFY")) (e.var (codes "VAULT_SKIP_TLS_VERIFY")));
      ca_cert_pem = and_then e.read (e.var (codes "VAULT_CACERT"));
      client_cert_pem = and_then e.read (e.var (codes "VAULT_CLIENT_CERT"));
      client_key_pem = and_then e.read (e.var (codes "VAULT_CLIENT_KEY"));
      cli_mode = cli_mode;
    }

-- The environment with another value for `VAULT_CLI_MODE`.
unfoldable pub with_cli_mode : Text → Environment → Environment
with_cli_mode v e = record e {
  var = λ name. if text_eq name (codes "VAULT_CLI_MODE") then some v else e.var name;
}

-- Setting `VAULT_CLI_MODE` to a value that switches it on, `1` or `true` in any case, is calling
-- `cli_mode(true)` on the builder of the environment, whatever the other variables and the files are.
pub from_env-with_cli_mode :
    (e : Environment) (v : Text)
    → is_on (some v) ≡ true
    → from_env (with_cli_mode v e) ≡ set_cli_mode true (from_env e)
unfolding from_env with_cli_mode set_cli_mode
from_env-with_cli_mode e v h = rw (h) refl
