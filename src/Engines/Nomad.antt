-- ===== src/Engines/Nomad.antt =====
-- api/nomad.rs, types/nomad.rs: the Nomad handler, and its types.
use vault_client_rs.Prelude.{ℕ, Bool, Option, none, some, List}
use vault_client_rs.Prelude.Text.{Text, codes}
use vault_client_rs.Json.{Json, string, bool, object, end, field}
use vault_client_rs.Client.{VaultClient}
use vault_client_rs.Effect.{Env, get, post, Method, World, M}
use vault_client_rs.Execute.{exec_with_data, exec_empty, exec_list}
use vault_client_rs.Wire.{Decode, below, named, unless_none, u64_json, array_of}

pub record NomadConfigRequest : Type 0 where
  pub address : Text
  pub token : Option Text
  pub max_token_name_length : Option ℕ

unfoldable pub nomad_config_request_body : NomadConfigRequest → Json
nomad_config_request_body p = object (
    field (codes "address") (string p.address) (
      unless_none string (codes "token") p.token
        (unless_none u64_json (codes "max_token_name_length") p.max_token_name_length end)))

pub record NomadConfig : Type 0 where
  pub address : Text
  pub max_token_name_length : ℕ

pub record NomadRoleRequest : Type 0 where
  pub policies : Option (List Text)
  pub token_type : Option Text
  pub global : Option Bool

unfoldable pub nomad_role_request_body : NomadRoleRequest → Json
nomad_role_request_body p = object (
    unless_none (array_of string) (codes "policies") p.policies (
      unless_none string (codes "type") p.token_type
        (unless_none bool (codes "global") p.global end)))

pub record NomadRole : Type 0 where
  pub policies : List Text
  pub token_type : Text
  pub global : Bool

pub record NomadCredentials : Type 0 where
  pub secret_id : Text
  pub accessor_id : Text

module _ (env : Env) (waiting : World → World) (c : VaultClient) (mount : Text) where
  unfoldable pub configure : NomadConfigRequest → M (Unit {0})
  configure params =
      exec_empty env waiting c post (below mount "/config/access")
        (some (nomad_config_request_body params))

  unfoldable pub read_config : Decode NomadConfig → M NomadConfig
  read_config decode = exec_with_data env waiting c decode get (below mount "/config/access") none

  unfoldable pub delete_config : M (Unit {0})
  delete_config = exec_empty env waiting c Method.delete (below mount "/config/access") none

  unfoldable pub create_role : Text → NomadRoleRequest → M (Unit {0})
  create_role name params =
      exec_empty env waiting c post (named mount "/role/" name)
        (some (nomad_role_request_body params))

  unfoldable pub read_role : Decode NomadRole → Text → M NomadRole
  read_role decode name = exec_with_data env waiting c decode get (named mount "/role/" name) none

  unfoldable pub delete_role : Text → M (Unit {0})
  delete_role name = exec_empty env waiting c Method.delete (named mount "/role/" name) none

  unfoldable pub list_roles : M (List Text)
  list_roles = exec_list env waiting c (below mount "/role")

  unfoldable pub get_credentials : Decode NomadCredentials → Text → M NomadCredentials
  get_credentials decode role =
      exec_with_data env waiting c decode get (named mount "/creds/" role) none
