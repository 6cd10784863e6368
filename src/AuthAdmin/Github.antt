-- ===== src/AuthAdmin/Github.antt =====
-- api/auth/github.rs, types/auth.rs: the Github auth handler, less its login, and its types.
use vault_client_rs.Prelude.{ℕ, Option, none, some, List, ◌++◌}
use vault_client_rs.Prelude.Text.{Text, codes}
use vault_client_rs.Json.{Json, string, object, end, field}
use vault_client_rs.EncodePath.{encode_path}
use vault_client_rs.Client.{VaultClient}
use vault_client_rs.Effect.{Env, get, post, World, M}
use vault_client_rs.Execute.{exec_with_data, exec_empty, exec_list}
use vault_client_rs.Wire.{Decode, unless_none, array_of}

pub record GithubConfigRequest : Type 0 where
  pub organization : Text
  pub base_url : Option Text
  pub token_policies : Option (List Text)
  pub token_ttl : Option Text
  pub token_max_ttl : Option Text

unfoldable pub github_config_request_body : GithubConfigRequest → Json
github_config_request_body p = object (
    field (codes "organization") (string p.organization) (
      unless_none string (codes "base_url") p.base_url (
        unless_none (array_of string) (codes "token_policies") p.token_policies (
          unless_none string (codes "token_ttl") p.token_ttl
            (unless_none string (codes "token_max_ttl") p.token_max_ttl end)))))

pub record GithubConfig : Type 0 where
  pub organization : Text
  pub base_url : Text
  pub token_policies : List Text
  pub token_ttl : ℕ
  pub token_max_ttl : ℕ

pub record GithubTeamMapping : Type 0 where
  pub value : Option Text

unfoldable pub github_team_mapping_body : GithubTeamMapping → Json
github_team_mapping_body p = object (unless_none string (codes "value") p.value end)

pub record GithubTeamInfo : Type 0 where
  pub value : Text

module _ (env : Env) (waiting : World → World) (c : VaultClient) (mount : Text) where
  unfoldable pub configure : GithubConfigRequest → M (Unit {0})
  configure cfg =
      exec_empty env waiting c post (codes "auth/" ++ (mount ++ codes "/config"))
        (some (github_config_request_body cfg))

  unfoldable pub read_config : Decode GithubConfig → M GithubConfig
  read_config decode =
      exec_with_data env waiting c decode get (codes "auth/" ++ (mount ++ codes "/config")) none

  unfoldable pub map_team : Text → GithubTeamMapping → M (Unit {0})
  map_team team params =
      exec_empty env waiting c post
        (codes "auth/" ++ (mount ++ (codes "/map/teams/" ++ encode_path team)))
        (some (github_team_mapping_body params))

  unfoldable pub read_team_mapping : Decode GithubTeamInfo → Text → M GithubTeamInfo
  read_team_mapping decode team =
      exec_with_data env waiting c decode get
        (codes "auth/" ++ (mount ++ (codes "/map/teams/" ++ encode_path team))) none

  unfoldable pub list_teams : M (List Text)
  list_teams = exec_list env waiting c (codes "auth/" ++ (mount ++ codes "/map/teams"))
