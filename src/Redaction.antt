-- ===== src/Redaction.antt =====
-- types/redaction.rs: how secrets are shown in Debug output. A string is its characters.
pub mod Reveals
pub mod Shown
pub mod Cut
use vault_client_rs.Prelude.{
  ℕ, Bool, true, false, ◌||◌, [], ◌∷◌, ◌++◌, ltb, length, take, drop, if◌then◌else◌, ◌==◌,
}
use vault_client_rs.Prelude.Text.{Text, codes}

pub data RedactionLevel : Type 0 where
  full partial unredacted : RedactionLevel

-- `level as u8`, for the atomic that `set_redaction_level` stores.
unfoldable pub as_u8 : RedactionLevel → ℕ
as_u8 full = 0
as_u8 partial = 1
as_u8 unredacted = 2

-- `redaction_level`, from the atomic's value.
unfoldable pub redaction_level : ℕ → RedactionLevel
redaction_level n = if n == 1 then partial else if n == 2 then unredacted else full

is_nil : Text → Bool
is_nil [] = true
is_nil (c ∷ s) = false

redacted : Text
redacted = codes "[REDACTED]"

unfoldable pub redact : RedactionLevel → Text → Text
unfolding is_nil redacted
redact full value = redacted
redact partial value =
    let prefix = take 4 value in
    if ltb (length prefix) 4 || is_nil (drop 4 value) then redacted else prefix ++ codes "..."
redact unredacted value = value
