-- ===== src/Sys/Audit.antt =====
-- api/sys/audit.rs, types/sys.rs: the Audit endpoints of the system backend, and its types.
use vault_client_rs.Prelude.{Bool, Option, none, some, List, ◌++◌}
use vault_client_rs.Prelude.Text.{Text, codes}
use vault_client_rs.Json.{Json, string, bool, object, end, field}
use vault_client_rs.EncodePath.{encode_path}
use vault_client_rs.Client.{VaultClient}
use vault_client_rs.Effect.{Env, get, put, Method, World, M}
use vault_client_rs.Execute.{exec_with_data, exec_empty}
use vault_client_rs.Wire.{Decode, HashMap, unless_none, object_of}

pub record AuditDevice : Type 0 where
  pub audit_type : Text
  pub description : Text
  pub options : HashMap Text
  pub path : Text
  pub local : Bool

pub record AuditParams : Type 0 where
  pub audit_type : Text
  pub description : Option Text
  pub options : List (Text × Text)
  pub local : Option Bool

unfoldable pub audit_params_body : AuditParams → Json
audit_params_body p = object (
    field (codes "type") (string p.audit_type) (
      unless_none string (codes "description") p.description (
        field (codes "options") (object_of string p.options)
          (unless_none bool (codes "local") p.local end))))

module _ (env : Env) (waiting : World → World) (c : VaultClient) where
  unfoldable pub list_audit_devices : Decode (HashMap AuditDevice) → M (HashMap AuditDevice)
  list_audit_devices decode = exec_with_data env waiting c decode get (codes "sys/audit") none

  unfoldable pub enable_audit : Text → AuditParams → M (Unit {0})
  enable_audit path params =
      exec_empty env waiting c put (codes "sys/audit/" ++ encode_path path)
        (some (audit_params_body params))

  unfoldable pub disable_audit : Text → M (Unit {0})
  disable_audit path =
      exec_empty env waiting c Method.delete (codes "sys/audit/" ++ encode_path path) none
