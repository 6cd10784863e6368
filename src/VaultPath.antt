-- ===== src/VaultPath.antt =====
-- types/secret.rs: `validate_vault_path`, and the path types that are made through it. A string is
-- its UTF-8 bytes.
pub mod Validated
use vault_client_rs.Prelude.{
  Bool, true, false, ◌&&◌, ◌||◌, Option, none, some, [], ◌∷◌, ◌++◌, ◌⊎◌, inl, inr, ltb, leb, ◌==◌,
  if◌then◌else◌,
}
use vault_client_rs.Prelude.Text.{Text, codes, starts_with, contains, ends_with}
use vault_client_rs.VaultError.{VaultError, config}

unfoldable pub is_empty : Text → Bool
is_empty [] = true
is_empty (b ∷ s) = false

-- `s.chars().any(|c| c.is_control())`: the code points below 0x20 and from 0x7F to 0x9F, of which those
-- from 0x80 on are the bytes 0xC2 and 0x80 to 0x9F.
unfoldable pub has_control : Text → Bool
has_control [] = false
has_control (b ∷ []) = ltb b 0x20 || b == 0x7f
has_control (b ∷ c ∷ s) =
    ltb b 0x20 || b == 0x7f || b == 0xc2 && leb 0x80 c && leb c 0x9f || has_control (c ∷ s)

-- The condition under which a path is refused.
unfoldable pub is_invalid : Text → Bool
unfolding is_empty has_control
is_invalid s =
    is_empty s
    || contains (codes "..") s
    || starts_with (codes "/") s
    || ends_with b'/' s
    || contains (0 ∷ []) s
    || contains (codes "%2e") s
    || contains (codes "%2E") s
    || contains (codes "%2f") s
    || contains (codes "%2F") s
    || has_control s

-- `format!("invalid {kind}: {s:?}")`, with the Debug form of a string as a parameter.
module _ (debug : Text → Text) where
  unfoldable pub validate_vault_path : Text → Text → Option VaultError
  unfolding is_invalid
  validate_vault_path s kind =
      if is_invalid s
      then some (config (codes "invalid " ++ (kind ++ (codes ": " ++ debug s))))
      else none

  -- `$Name::new`, which `try_from` and `deserialize` call: the path, or the error.
  unfoldable pub new : Text → Text → VaultError ⊎ Text
  unfolding validate_vault_path
  new label s = elim (validate_vault_path s label) [ none ↦ inr s | some e ↦ inl e ]

abbrev pub mount_path : (Text → Text) → Text → VaultError ⊎ Text
mount_path debug = new debug (codes "mount path")

abbrev pub secret_path : (Text → Text) → Text → VaultError ⊎ Text
secret_path debug = new debug (codes "secret path")
