-- ===== src/Sys/Quotas.antt =====
-- api/sys/quotas.rs, types/sys.rs: the Quotas endpoints of the system backend, and its types.
use vault_client_rs.Prelude.{ℕ, Bool, Option, none, some, List, ◌++◌}
use vault_client_rs.Prelude.Text.{Text, codes}
use vault_client_rs.Json.{Json, Number, number, string, bool, object, end, field}
use vault_client_rs.EncodePath.{encode_path}
use vault_client_rs.Client.{VaultClient}
use vault_client_rs.Effect.{Env, get, post, Method, World, M}
use vault_client_rs.Execute.{exec_with_data, exec_empty, exec_list}
use vault_client_rs.Wire.{Decode, unless_none, u64_json}

pub record RateLimitQuotaRequest : Type 0 where
  pub name : Text
  pub rate : Number
  pub burst : Option ℕ
  pub path : Option Text
  pub interval : Option Text
  pub block_interval : Option Text
  pub role : Option Text
  pub inheritable : Option Bool

unfoldable pub rate_limit_quota_request_body : RateLimitQuotaRequest → Json
rate_limit_quota_request_body p = object (
    field (codes "name") (string p.name) (
      field (codes "rate") (number p.rate) (
        unless_none u64_json (codes "burst") p.burst (
          unless_none string (codes "path") p.path (
            unless_none string (codes "interval") p.interval (
              unless_none string (codes "block_interval") p.block_interval (
                unless_none string (codes "role") p.role
                  (unless_none bool (codes "inheritable") p.inheritable end))))))))

pub record RateLimitQuota : Type 0 where
  pub name : Text
  pub rate : Number
  pub burst : ℕ
  pub path : Text
  pub interval : Option Text
  pub block_interval : Option Text
  pub role : Option Text
  pub quota_type : Option Text

module _ (env : Env) (waiting : World → World) (c : VaultClient) where
  unfoldable pub list_rate_limit_quotas : M (List Text)
  list_rate_limit_quotas = exec_list env waiting c (codes "sys/quotas/rate-limit")

  unfoldable pub read_rate_limit_quota : Decode RateLimitQuota → Text → M RateLimitQuota
  read_rate_limit_quota decode name =
      exec_with_data env waiting c decode get (codes "sys/quotas/rate-limit/" ++ encode_path name)
        none

  unfoldable pub write_rate_limit_quota : Text → RateLimitQuotaRequest → M (Unit {0})
  write_rate_limit_quota name params =
      exec_empty env waiting c post (codes "sys/quotas/rate-limit/" ++ encode_path name)
        (some (rate_limit_quota_request_body params))

  unfoldable pub delete_rate_limit_quota : Text → M (Unit {0})
  delete_rate_limit_quota name =
      exec_empty env waiting c Method.delete (codes "sys/quotas/rate-limit/" ++ encode_path name)
        none
