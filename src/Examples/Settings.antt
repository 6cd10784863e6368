-- ===== src/Examples/Settings.antt =====
-- Runs of `from_env` and of the trimming of a token file.
use vault_client_rs.Prelude.{◌≡◌, refl, true, Option, none, some, [], ◌∷◌, ◌++◌, if◌then◌else◌}
use vault_client_rs.Prelude.Text.{Text, codes, text_eq}
use vault_client_rs.Prelude.Time.{from_secs}
use vault_client_rs.Prelude.Trim.{trim}
use vault_client_rs.Builder.{default_builder}
use vault_client_rs.Builder.FromEnv.{Environment, from_env}

-- An ideographic space, a no-break space and a line's end around a text with a space.
trimmed :
    trim ((0xe3 ∷ 0x80 ∷ 0x80 ∷ 32 ∷ []) ++ codes "hvs a" ++ (0xc2 ∷ 0xa0 ∷ 10 ∷ []))
    ≡ codes "hvs a"
unfolding trim
trimmed = refl

-- Part of a character is kept.
not_blank : trim (0xe2 ∷ 0x80 ∷ 0x94 ∷ 32 ∷ []) ≡ 0xe2 ∷ 0x80 ∷ 0x94 ∷ []
unfolding trim
not_blank = refl

variables : Text → Option Text
variables name =
    if text_eq name (codes "VAULT_ADDR")
    then some (codes "https://vault:8200")
    else if text_eq name (codes "VAULT_CLI_MODE")
    then some (codes "TRUE")
    else if text_eq name (codes "VAULT_MAX_RETRIES")
    then some (codes "7")
    else if text_eq name (codes "VAULT_CLIENT_TIMEOUT")
    then some (codes "+30")
    else none

token_file : Text → Option Text
token_file path =
    if text_eq path (codes "/home/u/.vault-token") then some (codes "hvs.t\n") else none

abbrev environment : Environment
unfolding variables token_file
environment = record {
  var = variables;
  home_dir = some (codes "/home/u");
  read = λ _. none;
  read_to_string = token_file;
}

-- CLI mode wins over `VAULT_MAX_RETRIES`, and the token is that of the file.
settings : from_env environment ≡ record default_builder {
  address = some (codes "https://vault:8200");
  token = some (codes "hvs.t");
  timeout = some (from_secs 30);
  max_retries = some 0;
  cli_mode = true;
}
unfolding from_env environment
settings = refl
