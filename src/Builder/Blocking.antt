-- ===== src/Builder/Blocking.antt =====
-- client/blocking_client.rs: the builder of a blocking client.
use vault_client_rs.Prelude.{Bool, true, false, ◌++◌, Option, none, some, ◌⊎◌, inl, inr}
use vault_client_rs.Prelude.Text.{Text, codes}
use vault_client_rs.VaultError.{VaultError, config}
use vault_client_rs.Builder.{
  ClientBuilder, Libraries, Built, default_builder, set_address, set_token_str, build,
}
use vault_client_rs.Builder.FromEnv.{Environment, from_env}

-- The runtime of tokio: the text of the error of its builder, if it fails.
with_runtime : Option Text → Built → VaultError ⊎ Built
with_runtime none x = inr x
with_runtime (some e) x = inl (config (codes "tokio runtime: " ++ e))

nested_runtime : Text
nested_runtime =
    codes "BlockingVaultClient cannot be created inside a Tokio runtime. "
    ++ codes "Reason: BlockingVaultClient spawns its own single-threaded Tokio runtime, "
    ++ codes "and nested runtimes are not supported. "
    ++ codes "Fix: use VaultClient (async) with .await, or call "
    ++ codes "BlockingVaultClient::new() from a std::thread outside the existing runtime."

-- `build`, with whether the caller is in a runtime; the client stands for its own and the runtime.
unfoldable pub blocking_build : Bool → Libraries → Option Text → ClientBuilder → VaultError ⊎ Built
unfolding nested_runtime with_runtime build
blocking_build true libs runtime_error b = inl (config nested_runtime)
blocking_build false libs runtime_error b = elim (build libs b) [
  | inl e ↦ inl e
  | inr x ↦ with_runtime runtime_error x
]

unfoldable pub blocking_new : Bool → Libraries → Option Text → Text → Text → VaultError ⊎ Built
unfolding blocking_build set_address set_token_str
blocking_new in_runtime libs runtime_error address token =
    blocking_build in_runtime libs runtime_error
      (set_token_str token (set_address address default_builder))

unfoldable pub blocking_from_env : Bool → Libraries → Option Text → Environment → VaultError ⊎ Built
unfolding blocking_build from_env
blocking_from_env in_runtime libs runtime_error e =
    blocking_build in_runtime libs runtime_error (from_env e)
