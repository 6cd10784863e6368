-- ===== src/Engines/Rabbitmq.antt =====
-- api/rabbitmq.rs, types/rabbitmq.rs: the Rabbitmq handler, and its types.
use vault_client_rs.Prelude.{Bool, Option, none, some, List}
use vault_client_rs.Prelude.Text.{Text, codes}
use vault_client_rs.Json.{Json, string, bool, object, end, field}
use vault_client_rs.Client.{VaultClient}
use vault_client_rs.Effect.{Env, get, post, Method, World, M}
use vault_client_rs.Execute.{exec_with_data, exec_empty, exec_list}
use vault_client_rs.Wire.{Decode, below, named, unless_none, member, json_itself}

pub record RabbitmqConfigRequest : Type 0 where
  pub connection_uri : Text
  pub username : Text
  pub password : Option Text
  pub verify_connection : Option Bool

unfoldable pub rabbitmq_config_request_body : RabbitmqConfigRequest → Json
rabbitmq_config_request_body p = object (
    field (codes "connection_uri") (string p.connection_uri) (
      field (codes "username") (string p.username) (
        unless_none string (codes "password") p.password
          (unless_none bool (codes "verify_connection") p.verify_connection end))))

pub record RabbitmqRoleRequest : Type 0 where
  pub vhosts : Option Json
  pub vhost_topics : Option Json
  pub tags : Option Text

unfoldable pub rabbitmq_role_request_body : RabbitmqRoleRequest → Json
rabbitmq_role_request_body p = object (
    unless_none json_itself (codes "vhosts") p.vhosts (
      unless_none json_itself (codes "vhost_topics") p.vhost_topics
        (unless_none string (codes "tags") p.tags end)))

pub record RabbitmqRole : Type 0 where
  pub vhosts : Json
  pub vhost_topics : Json
  pub tags : Text

pub record RabbitmqCredentials : Type 0 where
  pub username : Text
  pub password : Text

module _ (env : Env) (waiting : World → World) (c : VaultClient) (mount : Text) where
  unfoldable pub configure : RabbitmqConfigRequest → M (Unit {0})
  configure params =
      exec_empty env waiting c post (below mount "/config/connection")
        (some (rabbitmq_config_request_body params))

  unfoldable pub configure_lease : Text → Text → M (Unit {0})
  configure_lease ttl max_ttl =
      exec_empty env waiting c post (below mount "/config/lease")
        (some (object (member "ttl" ttl (member "max_ttl" max_ttl end))))

  unfoldable pub create_role : Text → RabbitmqRoleRequest → M (Unit {0})
  create_role name params =
      exec_empty env waiting c post (named mount "/roles/" name)
        (some (rabbitmq_role_request_body params))

  unfoldable pub read_role : Decode RabbitmqRole → Text → M RabbitmqRole
  read_role decode name = exec_with_data env waiting c decode get (named mount "/roles/" name) none

  unfoldable pub delete_role : Text → M (Unit {0})
  delete_role name = exec_empty env waiting c Method.delete (named mount "/roles/" name) none

  unfoldable pub list_roles : M (List Text)
  list_roles = exec_list env waiting c (below mount "/roles")

  unfoldable pub get_credentials : Decode RabbitmqCredentials → Text → M RabbitmqCredentials
  get_credentials decode role =
      exec_with_data env waiting c decode get (named mount "/creds/" role) none
