-- ===== src/Operations/GithubAuth.antt =====
-- api/traits.rs: `GithubAuthOperations`, and its blocking form.
use vault_client_rs.Prelude.{Bool, List}
use vault_client_rs.Prelude.Text.{Text}
use vault_client_rs.VaultResponse.{AuthInfo}
use vault_client_rs.EncodePath.{encode_path}
use vault_client_rs.Client.{VaultClient}
use vault_client_rs.Effect.{Env, World, M}
use vault_client_rs.Wire.{Decode}
use vault_client_rs.Auth.{github_login}
use vault_client_rs.Operations.{block_on}
use vault_client_rs.AuthAdmin.Github
use vault_client_rs.AuthAdmin.Github.{
  GithubConfigRequest, GithubConfig, GithubTeamMapping, GithubTeamInfo,
}

pub record GithubAuthOperations (F : Type 0 → Type 0) : Type 0 where
  pub login : Text → F AuthInfo
  pub configure : GithubConfigRequest → F (Unit {0})
  pub read_config : F GithubConfig
  pub map_team : Text → GithubTeamMapping → F (Unit {0})
  pub read_team_mapping : Text → F GithubTeamInfo
  pub list_teams : F (List Text)

-- The implementation by the handler, with the decoders of the responses.
unfoldable pub github_auth_handler :
    (env : Env) (waiting : World → World) (c : VaultClient) (mount : Text)
    (read_github_config : Decode GithubConfig) (read_github_team_info : Decode GithubTeamInfo)
    → GithubAuthOperations M
github_auth_handler env waiting c mount read_github_config read_github_team_info = record {
  login = github_login env waiting c mount;
  configure = Github.configure env waiting c (encode_path mount);
  read_config = Github.read_config env waiting c (encode_path mount) read_github_config;
  map_team = Github.map_team env waiting c (encode_path mount);
  read_team_mapping =
      Github.read_team_mapping env waiting c (encode_path mount) read_github_team_info;
  list_teams = Github.list_teams env waiting c (encode_path mount);
}

-- `GithubAuthHandler` of blocking/mod.rs.
unfoldable pub blocking_github_auth : Bool → GithubAuthOperations M → GithubAuthOperations M
unfolding block_on
blocking_github_auth in_runtime o = record {
  login = λ a. block_on in_runtime (o.login a);
  configure = λ a. block_on in_runtime (o.configure a);
  read_config = block_on in_runtime o.read_config;
  map_team = λ a b. block_on in_runtime (o.map_team a b);
  read_team_mapping = λ a. block_on in_runtime (o.read_team_mapping a);
  list_teams = block_on in_runtime o.list_teams;
}
