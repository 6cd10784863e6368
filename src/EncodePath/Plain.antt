-- ===== src/EncodePath/Plain.antt =====
-- Which bytes `Url::parse` takes as they are, and which segments it takes for dot segments (the URL
-- standard; RFC 3986, section 3.3), against the output of `encode_path`.
use vault_client_rs.Prelude.{
  ℕ, ◌/◌, ◌%◌, ◌<◌, ◌≡◌, ◌≢◌, sym, ap, ◌∙◌, subst, inl, inr, List, [], ◌∷◌, map, All, arith,
  Bool-cases,
}
use vault_client_rs.Prelude.Text.{Text, codes}
use vault_client_rs.EncodePath.{is_escaped, hex_digit, prepend, encode_path}
use vault_client_rs.EncodePath.Safe.{IsByte, IsPathByte}
use vault_client_rs.EncodePath.Dots.{segments}
use vault_client_rs.EncodePath.Segments.{segments-encode_path, segments-IsByte}
use vault_client_rs.EncodePath.RoundTrip.{plain, percent_decode, percent_decode-encode_path}

-- None of the bytes that the parser writes in another way although `encode_path` leaves them: those that
-- it percent-encodes, and `\`, which it takes for a separator.
pub record IsKept (b : ℕ) : Type 0 where
  pub no_quote : b ≢ b'"'
  pub no_less : b ≢ b'<'
  pub no_greater : b ≢ b'>'
  pub no_backslash : b ≢ 92
  pub no_caret : b ≢ b'^'
  pub no_backtick : b ≢ b'`'
  pub no_open_brace : b ≢ b'{'
  pub no_bar : b ≢ b'|'
  pub no_close_brace : b ≢ b'}'

-- A byte of a path as RFC 3986 has them: a `pchar`, `/`, or the `%` of an escape.
abbrev pub IsPchar : ℕ → Type 0
IsPchar b = IsPathByte b × IsKept b

hex_digit-IsKept : (d : ℕ) → d < 16 → IsKept (hex_digit d)
unfolding hex_digit
hex_digit-IsKept d h = ground arith

pub prepend-IsKept :
    (b : ℕ) (out : Text) → IsByte b → IsKept b → All IsKept out → All IsKept (prepend b out)
unfolding prepend
prepend-IsKept b out lt k h = elim (Bool-cases (is_escaped b)) [
  | inl e ↦ rw e (
    ground arith,
    (hex_digit-IsKept (b / 16) (omega arith), (hex_digit-IsKept (b % 16) (omega arith), h)),
  )
  | inr e ↦ rw e (k, h)
]

pub encode_path-IsKept :
    (raw : Text) → All IsByte raw → All IsKept raw → All IsKept (encode_path raw)
unfolding encode_path
encode_path-IsKept [] a k = tt
encode_path-IsKept (b ∷ raw) a k =
    prepend-IsKept b (encode_path raw) a.0 k.0 (encode_path-IsKept raw a.1 k.1)

-- A segment that is a dot segment after percent-decoding is one as it stands; the parser also takes
-- `%2e` for a dot.
pub record HasPlainDots (s : Text) : Type 0 where
  pub one : percent_decode plain s ≡ codes "." → s ≡ codes "."
  pub two : percent_decode plain s ≡ codes ".." → s ≡ codes ".."

-- `encode_path` writes no dot as an escape.
pub encode_path-HasPlainDots : (s : Text) → All IsByte s → HasPlainDots (encode_path s)
unfolding encode_path prepend is_escaped
encode_path-HasPlainDots s a = record {
  one = λ e. ap encode_path (sym (percent_decode-encode_path s a) ∙ e);
  two = λ e. ap encode_path (sym (percent_decode-encode_path s a) ∙ e);
}

encoded-HasPlainDots :
    (ss : List Text) → All (All IsByte) ss → All HasPlainDots (map encode_path ss)
encoded-HasPlainDots [] a = tt
encoded-HasPlainDots (s ∷ ss) a = (encode_path-HasPlainDots s a.0, encoded-HasPlainDots ss a.1)

pub segments-HasPlainDots :
    (raw : Text) → All IsByte raw → All HasPlainDots (segments (encode_path raw))
segments-HasPlainDots raw a =
    subst (All HasPlainDots) (sym (segments-encode_path raw a))
      (encoded-HasPlainDots (segments raw) (segments-IsByte raw a))
