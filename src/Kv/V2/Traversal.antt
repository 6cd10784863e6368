-- ===== src/Kv/V2/Traversal.antt =====
-- Where the requests of api/kv2.rs go after `Url::parse` has removed the dot segments of their path.
pub mod Front
pub mod Backslash
use vault_client_rs.Prelude.{◌≡◌, inr, ◌++◌, All}
use vault_client_rs.Prelude.Text.{Text}
use vault_client_rs.Json.{Json}
use vault_client_rs.EncodePath.Safe.{IsPathByte}
use vault_client_rs.EncodePath.Dots.{segments, without_dots}
use vault_client_rs.EncodePath.Plain.{IsKept, HasPlainDots}
use vault_client_rs.Effect.{Env, Request}

-- `Url::parse` on the paths below a base URL whose own path is `/`: a path of bytes that the standard
-- leaves as they are, with dot segments only as they stand, is kept but for its dot segments.
abbrev pub ResolvesDots : Env → Text → Type 0
ResolvesDots env base =
    (p : Text)
    → All IsPathByte p
    → All IsKept p
    → All HasPlainDots (segments p)
    → env.parse_url (base ++ p) ≡ inr (base ++ without_dots p)
