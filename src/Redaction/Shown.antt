-- ===== src/Redaction/Shown.antt =====
-- types/response.rs, types/kv.rs: the Debug implementations of the envelope, of what is in it and of a
-- KV secret, as the calls they make of the formatter.
use vault_client_rs.Prelude.{ℕ, Bool, Option, none, some, List}
use vault_client_rs.Prelude.Text.{Text, codes}
use vault_client_rs.Json.{Json}
use vault_client_rs.VaultResponse.{AuthInfo, WrapInfo, VaultResponse}
use vault_client_rs.Kv.{HashMap, KvMetadata, KvReadResponse}
use vault_client_rs.Redaction.{RedactionLevel, redact}

-- A value handed to the formatter: one that the standard library formats, or a `debug_struct` with its
-- fields.
mutual
  pub data Shown : Type 0 where
    text : Text → Shown
    int : ℕ → Shown
    flag : Bool → Shown
    json : Json → Shown
    texts : List Text → Shown
    pairs : List (Text × Text) → Shown
    table : HashMap Text → Shown
    absent : Shown
    present : Shown → Shown
    debug_struct : Text → Members → Shown

  pub data Members : Type 0 where
    finish : Members
    member : Text → Shown → Members → Members

-- `Option<T>`'s Debug.
abbrev pub optional : {A : Type 0} → (A → Shown) → Option A → Shown
optional f none = absent
optional f (some x) = present (f x)

-- `redact` and `redact(&format!("{d:?}"))`, by the text that `format!` gives.
secret : RedactionLevel → Text → Shown
secret level s = text (redact level s)

unfoldable pub debug_auth_info : RedactionLevel → AuthInfo → Shown
unfolding secret
debug_auth_info level a = debug_struct (codes "AuthInfo") (
    member (codes "client_token") (secret level a.client_token) (
      member (codes "accessor") (text a.accessor) (
        member (codes "policies") (texts a.policies) (
          member (codes "token_policies") (texts a.token_policies) (
            member (codes "metadata") (optional pairs a.metadata) (
              member (codes "lease_duration") (int a.lease_duration) (
                member (codes "renewable") (flag a.renewable) (
                  member (codes "entity_id") (text a.entity_id) (
                    member (codes "token_type") (text a.token_type) (
                      member (codes "orphan") (flag a.orphan) (
                        member (codes "mfa_requirement") (optional json a.mfa_requirement)
                          (member (codes "num_uses") (optional int a.num_uses) finish))))))))))))

unfoldable pub debug_wrap_info : RedactionLevel → WrapInfo → Shown
unfolding secret
debug_wrap_info level i = debug_struct (codes "WrapInfo") (
    member (codes "token") (secret level i.token) (
      member (codes "accessor") (text i.accessor) (
        member (codes "ttl") (int i.ttl) (
          member (codes "creation_time") (text i.creation_time) (
            member (codes "creation_path") (text i.creation_path)
              (member (codes "wrapped_accessor") (optional text i.wrapped_accessor) finish))))))

unfoldable pub debug_response : {T : Type 0} → RedactionLevel → (T → Text) → VaultResponse T → Shown
unfolding secret debug_auth_info debug_wrap_info
debug_response level format r = debug_struct (codes "VaultResponse") (
    member (codes "request_id") (optional text r.request_id) (
      member (codes "lease_id") (optional text r.lease_id) (
        member (codes "lease_duration") (optional int r.lease_duration) (
          member (codes "renewable") (optional flag r.renewable) (
            member (codes "data") (optional (λ d. secret level (format d)) r.data_field) (
              member (codes "auth") (optional (debug_auth_info level) r.auth) (
                member (codes "warnings") (optional texts r.warnings) (
                  member (codes "wrap_info") (optional (debug_wrap_info level) r.wrap_info)
                    finish))))))))

-- The derived Debug.
debug_kv_metadata : KvMetadata → Shown
debug_kv_metadata m = debug_struct (codes "KvMetadata") (
    member (codes "created_time") (text m.created_time) (
      member (codes "custom_metadata") (optional table m.custom_metadata) (
        member (codes "deletion_time") (text m.deletion_time) (
          member (codes "destroyed") (flag m.destroyed)
            (member (codes "version") (int m.version) finish)))))

unfoldable pub debug_kv_read_response :
    {T : Type 0} → RedactionLevel → (T → Text) → KvReadResponse T → Shown
unfolding secret debug_kv_metadata
debug_kv_read_response level format r = debug_struct (codes "KvReadResponse") (
    member (codes "data") (secret level (format r.data_field))
      (member (codes "metadata") (debug_kv_metadata r.metadata) finish))
