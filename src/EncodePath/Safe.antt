-- ===== src/EncodePath/Safe.antt =====
-- What the output of `encode_path` is made of.
use vault_client_rs.Prelude.{
  ℕ, suc, ◌+◌, ◌*◌, ◌/◌, ◌%◌, ◌≤◌, ◌<◌, ◌≡◌, ◌≢◌, refl, false, inl, inr, [], ◌∷◌, length, All, ◌==◌,
  if◌then◌else◌, arith, Bool-cases,
}
use vault_client_rs.Prelude.Text.{Text}
use vault_client_rs.EncodePath.{is_escaped, hex_digit, prepend, encode_path}

-- A byte that a URL path may hold: visible ASCII, and none of `?`, `#`, `[`, `]`.
pub record IsPathByte (b : ℕ) : Type 0 where
  pub visible : 0x20 < b
  pub ascii : b < 0x7f
  pub no_query : b ≢ b'?'
  pub no_fragment : b ≢ b'#'
  pub no_open : b ≢ b'['
  pub no_close : b ≢ b']'

abbrev pub IsByte : ℕ → Type 0
IsByte b = b < 256

hex_digit-IsPathByte : (d : ℕ) → d < 16 → IsPathByte (hex_digit d)
unfolding hex_digit
hex_digit-IsPathByte d h = ground arith

plain-IsPathByte : (b : ℕ) → is_escaped b ≡ false → IsPathByte b
unfolding is_escaped
plain-IsPathByte b h = ground arith

prepend-All : (b : ℕ) (out : Text) → IsByte b → All IsPathByte out → All IsPathByte (prepend b out)
unfolding prepend
prepend-All b out lt h = elim (Bool-cases (is_escaped b)) [
  | inl e ↦ rw e (
    omega arith,
    (hex_digit-IsPathByte (b / 16) (omega arith), (hex_digit-IsPathByte (b % 16) (omega arith), h)),
  )
  | inr e ↦ rw e (plain-IsPathByte b e, h)
]

encode_path-All : (raw : Text) → All IsByte raw → All IsPathByte (encode_path raw)
unfolding encode_path
encode_path-All [] h = tt
encode_path-All (b ∷ raw) h = prepend-All b (encode_path raw) h.0 (encode_path-All raw h.1)

-- How often a byte occurs.
abbrev pub count : ℕ → Text → ℕ
count c [] = 0
count c (b ∷ s) = let rest = count c s in if b == c then suc rest else rest

count-prepend : (b : ℕ) (out : Text) → IsByte b → count b'/' (prepend b out) ≡ count b'/' (b ∷ out)
unfolding prepend
count-prepend b out lt = ground arith

length-prepend : (b : ℕ) (out : Text) → length (prepend b out) ≤ length out + 3
unfolding prepend
length-prepend b out = ground arith

count-encode_path : (raw : Text) → All IsByte raw → count b'/' (encode_path raw) ≡ count b'/' raw
unfolding encode_path
count-encode_path [] h = refl
count-encode_path (b ∷ raw) h =
    ground (arith, count-prepend b (encode_path raw) h.0, count-encode_path raw h.1)

length-encode_path : (raw : Text) → length (encode_path raw) ≤ 3 * length raw
unfolding encode_path
length-encode_path [] = omega arith
length-encode_path (b ∷ raw) =
    omega (arith, length-prepend b (encode_path raw), length-encode_path raw)

-- The encoding of any bytes is visible ASCII with no `?`, `#`, `[` or `]`, so it stays inside the path
-- of a URL; it has the same number of `/` separators, and is at most three times as long.
pub encode_path_safe :
    (raw : Text)
    → All IsByte raw
    → All IsPathByte (encode_path raw)
      × (count b'/' (encode_path raw) ≡ count b'/' raw)
      × (length (encode_path raw) ≤ 3 * length raw)
encode_path_safe raw h = (encode_path-All raw h, count-encode_path raw h, length-encode_path raw)
