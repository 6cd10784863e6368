-- ===== src/Sys/Plugins.antt =====
-- api/sys/plugins.rs, types/sys.rs: the Plugins endpoints of the system backend, and its types.
use vault_client_rs.Prelude.{Bool, Option, none, some, List, ◌++◌}
use vault_client_rs.Prelude.Text.{Text, codes}
use vault_client_rs.Json.{Json, string, object, end, field}
use vault_client_rs.EncodePath.{encode_path}
use vault_client_rs.Client.{VaultClient}
use vault_client_rs.Effect.{Env, get, post, put, Method, World, M}
use vault_client_rs.Execute.{exec_with_data, exec_empty, exec_list}
use vault_client_rs.Wire.{Decode, unless_none, member, array_of}

pub record PluginInfo : Type 0 where
  pub name : Text
  pub command : Text
  pub args : List Text
  pub sha256 : Text
  pub version : Option Text
  pub builtin : Bool

pub record RegisterPluginRequest : Type 0 where
  pub name : Text
  pub plugin_type : Text
  pub command : Text
  pub sha256 : Text
  pub args : Option (List Text)
  pub env : Option (List Text)
  pub version : Option Text

unfoldable pub register_plugin_request_body : RegisterPluginRequest → Json
register_plugin_request_body p = object (
    field (codes "name") (string p.name) (
      field (codes "type") (string p.plugin_type) (
        field (codes "command") (string p.command) (
          field (codes "sha256") (string p.sha256) (
            unless_none (array_of string) (codes "args") p.args (
              unless_none (array_of string) (codes "env") p.env
                (unless_none string (codes "version") p.version end)))))))

module _ (env : Env) (waiting : World → World) (c : VaultClient) where
  unfoldable pub list_plugins : Text → M (List Text)
  list_plugins plugin_type =
      exec_list env waiting c (codes "sys/plugins/catalog/" ++ encode_path plugin_type)

  unfoldable pub read_plugin : Decode PluginInfo → Text → Text → M PluginInfo
  read_plugin decode plugin_type name =
      exec_with_data env waiting c decode get
        (codes "sys/plugins/catalog/"
          ++ (encode_path plugin_type ++ (codes "/" ++ encode_path name)))
        none

  unfoldable pub register_plugin : RegisterPluginRequest → M (Unit {0})
  register_plugin params =
      exec_empty env waiting c post
        (codes "sys/plugins/catalog/"
          ++ (encode_path params.plugin_type ++ (codes "/" ++ encode_path params.name)))
        (some (register_plugin_request_body params))

  unfoldable pub deregister_plugin : Text → Text → M (Unit {0})
  deregister_plugin plugin_type name =
      exec_empty env waiting c Method.delete
        (codes "sys/plugins/catalog/"
          ++ (encode_path plugin_type ++ (codes "/" ++ encode_path name)))
        none

  unfoldable pub reload_plugin : Text → M (Unit {0})
  reload_plugin plugin =
      exec_empty env waiting c put (codes "sys/plugins/reload/backend")
        (some (object (member "plugin" plugin end)))
