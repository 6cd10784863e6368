-- ===== src/EncodePath.antt =====
-- `encode_path` of client/async_client.rs, over the bytes of a path.
pub mod Safe
pub mod RoundTrip
pub mod Dots
pub mod Segments
pub mod Plain
use vault_client_rs.Prelude.{
  ℕ, ◌+◌, ◌-◌, ◌/◌, ◌%◌, Bool, ◌||◌, [], ◌∷◌, ltb, leb, ◌==◌, if◌then◌else◌,
}
use vault_client_rs.Prelude.Text.{Text}

-- The bytes that are written as `%XX`.
unfoldable pub is_escaped : ℕ → Bool
is_escaped b =
    b == b'?'
    || b == b'#'
    || b == b'%'
    || b == b' '
    || b == b'['
    || b == b']'
    || leb b 0x1f
    || b == 0x7f
    || leb 0x80 b

-- A digit of `{:X}`.
unfoldable pub hex_digit : ℕ → ℕ
hex_digit d = if ltb d 10 then b'0' + d else b'A' + (d - 10)

-- The output for one byte, before the output for the rest.
unfoldable pub prepend : ℕ → Text → Text
unfolding is_escaped hex_digit
prepend b out =
    if is_escaped b then b'%' ∷ hex_digit (b / 16) ∷ hex_digit (b % 16) ∷ out else b ∷ out

unfoldable pub encode_path : Text → Text
unfolding prepend
encode_path [] = []
encode_path (b ∷ raw) = prepend b (encode_path raw)
