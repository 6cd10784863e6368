-- ===== src/EncodePath/RoundTrip.antt =====
-- `encode_path` against percent-decoding (RFC 3986), which the server applies.
use vault_client_rs.Prelude.{
  ℕ, ◌+◌, ◌-◌, ◌*◌, ◌/◌, ◌%◌, ◌<◌, ◌≡◌, refl, sym, ◌∙◌, ap, false, inl, inr, [], ◌∷◌, All, leb,
  ◌==◌, if◌then◌else◌, arith, Bool-cases,
}
use vault_client_rs.Prelude.Text.{Text}
use vault_client_rs.EncodePath.{is_escaped, hex_digit, prepend, encode_path}
use vault_client_rs.EncodePath.Safe.{IsByte}

-- Outside an escape, after `%`, or after `%` and a digit.
pub data Mode : Type 0 where
  plain : Mode
  high : Mode
  low : ℕ → Mode

abbrev hex_value : ℕ → ℕ
hex_value c = if leb c b'9' then c - b'0' else c - b'A' + 10

unfoldable pub percent_decode : Mode → Text → Text
percent_decode mode [] = []
percent_decode plain (b ∷ s) =
    let rest = percent_decode (if b == b'%' then high else plain) s in
    if b == b'%' then rest else b ∷ rest
percent_decode high (b ∷ s) = percent_decode (low (hex_value b)) s
percent_decode (low h) (b ∷ s) = (16 * h + hex_value b) ∷ percent_decode plain s

hex_value-hex_digit : (d : ℕ) → d < 16 → hex_value (hex_digit d) ≡ d
unfolding hex_digit
hex_value-hex_digit d h = ground arith

not_percent : (b : ℕ) → is_escaped b ≡ false → (b == b'%') ≡ false
unfolding is_escaped
not_percent b h = ground arith

percent_decode-prepend :
    (b : ℕ) (out : Text)
    → IsByte b
    → percent_decode plain (prepend b out) ≡ b ∷ percent_decode plain out
unfolding percent_decode prepend
percent_decode-prepend b out lt = elim (Bool-cases (is_escaped b)) [
  | inl e ↦
      rw (e, hex_value-hex_digit (b / 16) (omega arith), hex_value-hex_digit (b % 16) (omega arith))
        (ap (λ (x : ℕ). x ∷ percent_decode plain out) (omega arith))
  | inr e ↦ rw (e, not_percent b e) refl
]

-- Percent-decoding the encoding of a path gives back the path, for any bytes.
pub percent_decode-encode_path :
    (raw : Text) → All IsByte raw → percent_decode plain (encode_path raw) ≡ raw
unfolding encode_path percent_decode
percent_decode-encode_path [] h = refl
percent_decode-encode_path (b ∷ raw) h =
    percent_decode-prepend b (encode_path raw) h.0
    ∙ ap (λ (s : Text). b ∷ s) (percent_decode-encode_path raw h.1)

-- Different paths are never sent to the same encoded path.
pub encode_path-injective :
    (a b : Text) → All IsByte a → All IsByte b → encode_path a ≡ encode_path b → a ≡ b
encode_path-injective a b ha hb e =
    sym (percent_decode-encode_path a ha)
    ∙ (ap (percent_decode plain) e ∙ percent_decode-encode_path b hb)
