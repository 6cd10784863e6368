-- ===== src/Sys/Mounts.antt =====
-- api/sys/mounts.rs, types/sys.rs: the Mounts endpoints of the system backend, and its types.
use vault_client_rs.Prelude.{ℕ, Bool, Option, none, some, List, ◌++◌}
use vault_client_rs.Prelude.Text.{Text, codes}
use vault_client_rs.Json.{Json, string, object, end, field}
use vault_client_rs.EncodePath.{encode_path}
use vault_client_rs.Client.{VaultClient}
use vault_client_rs.Effect.{Env, get, post, Method, World, M}
use vault_client_rs.Execute.{exec_with_data, exec_empty}
use vault_client_rs.Wire.{Decode, HashMap, unless_none, object_of}

pub record MountConfig : Type 0 where
  pub default_lease_ttl : ℕ
  pub max_lease_ttl : ℕ
  pub force_no_cache : Bool

pub record MountInfo : Type 0 where
  pub mount_type : Text
  pub description : Text
  pub accessor : Text
  pub config : MountConfig
  pub local : Bool
  pub seal_wrap : Bool
  pub external_entropy_access : Bool
  pub options : Option (HashMap Text)
  pub uuid : Option Text

pub record MountTuneParams : Type 0 where
  pub default_lease_ttl : Option Text
  pub max_lease_ttl : Option Text
  pub description : Option Text

unfoldable pub mount_tune_params_body : MountTuneParams → Json
mount_tune_params_body p = object (
    unless_none string (codes "default_lease_ttl") p.default_lease_ttl (
      unless_none string (codes "max_lease_ttl") p.max_lease_ttl
        (unless_none string (codes "description") p.description end)))

pub record MountParams : Type 0 where
  pub mount_type : Text
  pub description : Option Text
  pub config : Option MountTuneParams
  pub options : Option (List (Text × Text))

unfoldable pub mount_params_body : MountParams → Json
unfolding mount_tune_params_body
mount_params_body p = object (
    field (codes "type") (string p.mount_type) (
      unless_none string (codes "description") p.description (
        unless_none mount_tune_params_body (codes "config") p.config
          (unless_none (object_of string) (codes "options") p.options end))))

pub record AuthMountInfo : Type 0 where
  pub mount_type : Text
  pub description : Text
  pub accessor : Text
  pub config : MountConfig
  pub local : Bool
  pub seal_wrap : Bool
  pub uuid : Option Text

pub record AuthMountParams : Type 0 where
  pub mount_type : Text
  pub description : Option Text
  pub config : Option MountTuneParams

unfoldable pub auth_mount_params_body : AuthMountParams → Json
unfolding mount_tune_params_body
auth_mount_params_body p = object (
    field (codes "type") (string p.mount_type) (
      unless_none string (codes "description") p.description
        (unless_none mount_tune_params_body (codes "config") p.config end)))

module _ (env : Env) (waiting : World → World) (c : VaultClient) where
  unfoldable pub list_mounts : Decode (HashMap MountInfo) → M (HashMap MountInfo)
  list_mounts decode = exec_with_data env waiting c decode get (codes "sys/mounts") none

  unfoldable pub mount : Text → MountParams → M (Unit {0})
  mount path params =
      exec_empty env waiting c post (codes "sys/mounts/" ++ encode_path path)
        (some (mount_params_body params))

  unfoldable pub unmount : Text → M (Unit {0})
  unmount path =
      exec_empty env waiting c Method.delete (codes "sys/mounts/" ++ encode_path path) none

  unfoldable pub tune_mount : Text → MountTuneParams → M (Unit {0})
  tune_mount path params =
      exec_empty env waiting c post (codes "sys/mounts/" ++ (encode_path path ++ codes "/tune"))
        (some (mount_tune_params_body params))

  unfoldable pub read_mount_tune : Decode MountConfig → Text → M MountConfig
  read_mount_tune decode path =
      exec_with_data env waiting c decode get
        (codes "sys/mounts/" ++ (encode_path path ++ codes "/tune")) none

  unfoldable pub list_auth_mounts : Decode (HashMap AuthMountInfo) → M (HashMap AuthMountInfo)
  list_auth_mounts decode = exec_with_data env waiting c decode get (codes "sys/auth") none

  unfoldable pub enable_auth : Text → AuthMountParams → M (Unit {0})
  enable_auth path params =
      exec_empty env waiting c post (codes "sys/auth/" ++ encode_path path)
        (some (auth_mount_params_body params))

  unfoldable pub disable_auth : Text → M (Unit {0})
  disable_auth path =
      exec_empty env waiting c Method.delete (codes "sys/auth/" ++ encode_path path) none

  unfoldable pub read_auth_tune : Decode MountConfig → Text → M MountConfig
  read_auth_tune decode path =
      exec_with_data env waiting c decode get
        (codes "sys/auth/" ++ (encode_path path ++ codes "/tune")) none
