-- ===== src/Engines/Consul.antt =====
-- api/consul.rs, types/consul.rs: the Consul handler, and its types.
use vault_client_rs.Prelude.{ℕ, Bool, Option, none, some, List}
use vault_client_rs.Prelude.Text.{Text, codes}
use vault_client_rs.Json.{Json, string, bool, object, end, field}
use vault_client_rs.Client.{VaultClient}
use vault_client_rs.Effect.{Env, get, post, Method, World, M}
use vault_client_rs.Execute.{exec_with_data, exec_empty, exec_list}
use vault_client_rs.Wire.{Decode, below, named, unless_none, array_of}

pub record ConsulConfigRequest : Type 0 where
  pub address : Text
  pub scheme : Option Text
  pub token : Option Text

unfoldable pub consul_config_request_body : ConsulConfigRequest → Json
consul_config_request_body p = object (
    field (codes "address") (string p.address) (
      unless_none string (codes "scheme") p.scheme
        (unless_none string (codes "token") p.token end)))

pub record ConsulConfig : Type 0 where
  pub address : Text
  pub scheme : Text

pub record ConsulRoleRequest : Type 0 where
  pub consul_policies : Option (List Text)
  pub consul_roles : Option (List Text)
  pub service_identities : Option (List Text)
  pub node_identities : Option (List Text)
  pub consul_namespace : Option Text
  pub partition : Option Text
  pub ttl : Option Text
  pub max_ttl : Option Text
  pub local : Option Bool

unfoldable pub consul_role_request_body : ConsulRoleRequest → Json
consul_role_request_body p = object (
    unless_none (array_of string) (codes "consul_policies") p.consul_policies (
      unless_none (array_of string) (codes "consul_roles") p.consul_roles (
        unless_none (array_of string) (codes "service_identities") p.service_identities (
          unless_none (array_of string) (codes "node_identities") p.node_identities (
            unless_none string (codes "consul_namespace") p.consul_namespace (
              unless_none string (codes "partition") p.partition (
                unless_none string (codes "ttl") p.ttl (
                  unless_none string (codes "max_ttl") p.max_ttl
                    (unless_none bool (codes "local") p.local end)))))))))

pub record ConsulRole : Type 0 where
  pub consul_policies : List Text
  pub consul_roles : List Text
  pub service_identities : List Text
  pub node_identities : List Text
  pub ttl : ℕ
  pub max_ttl : ℕ
  pub local : Bool

pub record ConsulCredentials : Type 0 where
  pub token : Text

module _ (env : Env) (waiting : World → World) (c : VaultClient) (mount : Text) where
  unfoldable pub configure : ConsulConfigRequest → M (Unit {0})
  configure params =
      exec_empty env waiting c post (below mount "/config/access")
        (some (consul_config_request_body params))

  unfoldable pub read_config : Decode ConsulConfig → M ConsulConfig
  read_config decode = exec_with_data env waiting c decode get (below mount "/config/access") none

  unfoldable pub delete_config : M (Unit {0})
  delete_config = exec_empty env waiting c Method.delete (below mount "/config/access") none

  unfoldable pub create_role : Text → ConsulRoleRequest → M (Unit {0})
  create_role name params =
      exec_empty env waiting c post (named mount "/roles/" name)
        (some (consul_role_request_body params))

  unfoldable pub read_role : Decode ConsulRole → Text → M ConsulRole
  read_role decode name = exec_with_data env waiting c decode get (named mount "/roles/" name) none

  unfoldable pub delete_role : Text → M (Unit {0})
  delete_role name = exec_empty env waiting c Method.delete (named mount "/roles/" name) none

  unfoldable pub list_roles : M (List Text)
  list_roles = exec_list env waiting c (below mount "/roles")

  unfoldable pub get_credentials : Decode ConsulCredentials → Text → M ConsulCredentials
  get_credentials decode role =
      exec_with_data env waiting c decode get (named mount "/creds/" role) none
