-- ===== src/EncodePath/Segments.antt =====
-- `encode_path` segment by segment.
use vault_client_rs.Prelude.{
  ℕ, ◌/◌, ◌%◌, ◌<◌, ◌≡◌, refl, sym, ap, ◌∙◌, subst, true, false, inl, inr, List, [], ◌∷◌, ◌++◌, map,
  All, ◌==◌, if◌then◌else◌, arith, Bool-cases,
}
use vault_client_rs.Prelude.Text.{Text, codes, text_eq, trim_start_matches}
use vault_client_rs.Prelude.Search.{text_eq_path, text_eq_refl}
use vault_client_rs.EncodePath.{is_escaped, hex_digit, prepend, encode_path}
use vault_client_rs.EncodePath.Safe.{IsByte}
use vault_client_rs.EncodePath.RoundTrip.{encode_path-injective}
use vault_client_rs.EncodePath.Dots.{attach, segments, IsNotUp, IsPlain, segments-nonempty}

hex_digit-not_slash : (d : ℕ) → d < 16 → (hex_digit d == b'/') ≡ false
unfolding hex_digit
hex_digit-not_slash d h = ground arith

slash-plain : (b : ℕ) → is_escaped b ≡ true → (b == b'/') ≡ false
unfolding is_escaped
slash-plain b h = ground arith

attach-other :
    (b : ℕ) (h : Text) (t : List Text) → (b == b'/') ≡ false → attach b (h ∷ t) ≡ (b ∷ h) ∷ t
attach-other b h t q = rw q refl

escape-segments :
    (x y : ℕ) (out h : Text) (t : List Text)
    → (x == b'/') ≡ false
    → (y == b'/') ≡ false
    → segments out ≡ h ∷ t
    → segments (b'%' ∷ x ∷ y ∷ out) ≡ (b'%' ∷ x ∷ y ∷ h) ∷ t
escape-segments x y out h t p q e =
    ap (λ (ss : List Text). attach b'%' (attach x (attach y ss))) e
    ∙ (ap (λ (ss : List Text). attach b'%' (attach x ss)) (attach-other y h t q)
        ∙ ap (attach b'%') (attach-other x (y ∷ h) t p))

map-attach :
    (b : ℕ) (h : Text) (t : List Text)
    → (if b == b'/'
        then [] ∷ encode_path h ∷ map encode_path t
        else encode_path (b ∷ h) ∷ map encode_path t)
      ≡ map encode_path (attach b (h ∷ t))
unfolding encode_path
map-attach b h t = elim (Bool-cases (b == b'/')) [ inl q ↦ rw q refl | inr q ↦ rw q refl ]

-- Cutting the output for a byte is cutting at the byte.
segments-prepend :
    (b : ℕ) (out h : Text) (t : List Text)
    → IsByte b
    → segments out ≡ encode_path h ∷ t
    → segments (prepend b out)
      ≡ (if b == b'/' then [] ∷ encode_path h ∷ t else encode_path (b ∷ h) ∷ t)
unfolding prepend encode_path
segments-prepend b out h t lt e = elim (Bool-cases (is_escaped b)) [
  | inl q ↦
      let x = hex_digit (b / 16) in
      let y = hex_digit (b % 16) in
      rw (q, slash-plain b q)
        (escape-segments x y out (encode_path h) t (hex_digit-not_slash (b / 16) (omega arith))
          (hex_digit-not_slash (b % 16) (omega arith)) e)
  | inr q ↦ rw (q, e) refl
]

pub segments-encode_path :
    (raw : Text) → All IsByte raw → segments (encode_path raw) ≡ map encode_path (segments raw)
unfolding encode_path
segments-encode_path [] a = refl
segments-encode_path (b ∷ raw) a =
    let (h, (t, e)) = segments-nonempty raw in
    let ih : segments (encode_path raw) ≡ encode_path h ∷ map encode_path t =
      segments-encode_path raw a.1 ∙ ap (map encode_path) e in
    segments-prepend b (encode_path raw) h (map encode_path t) a.0 ih
    ∙ (map-attach b h t ∙ ap (λ (ss : List Text). map encode_path (attach b ss)) (sym e))

-- Encoding makes a text that it leaves as it is of no other text.
encode_path-other :
    (s d : Text)
    → All IsByte s
    → All IsByte d
    → encode_path d ≡ d
    → text_eq s d ≡ false
    → text_eq (encode_path s) d ≡ false
encode_path-other s d hs hd fixed h = elim (Bool-cases (text_eq (encode_path s) d)) [
  | inl q ↦
      let same = encode_path-injective s d hs hd (text_eq_path (encode_path s) d q ∙ sym fixed) in
      absurd (cc (h, ap (λ (x : Text). text_eq x d) same, text_eq_refl d))
  | inr q ↦ q
]

pub encode_path-IsNotUp : (s : Text) → All IsByte s → IsNotUp s → IsNotUp (encode_path s)
unfolding encode_path prepend is_escaped
encode_path-IsNotUp s a h =
    encode_path-other s (codes "..") a (omega arith, (omega arith, tt)) refl h

pub encode_path-IsPlain : (s : Text) → All IsByte s → IsPlain s → IsPlain (encode_path s)
unfolding encode_path prepend is_escaped
encode_path-IsPlain s a h =
    (encode_path-IsNotUp s a h.0, encode_path-other s (codes ".") a (omega arith, tt) refl h.1)

-- The bytes of the segments are those of the text.
pub segments-IsByte : (s : Text) → All IsByte s → All (All IsByte) (segments s)
segments-IsByte [] a = (tt, tt)
segments-IsByte (b ∷ s) a =
    let (h, (t, e)) = segments-nonempty s in
    let rest : All (All IsByte) (h ∷ t) = subst (All (All IsByte)) e (segments-IsByte s a.1) in
    elim (Bool-cases (b == b'/')) [
      | inl q ↦ rw (e, q) (tt, rest)
      | inr q ↦ rw (e, q) ((a.0, rest.0), rest.1)
    ]

module _ (P : Text → Type 0) (keeps : (s : Text) → All IsByte s → P s → P (encode_path s)) where
  map-keeps : (ss : List Text) → All (All IsByte) ss → All P ss → All P (map encode_path ss)
  map-keeps [] a h = tt
  map-keeps (s ∷ ss) a h = (keeps s a.0 h.0, map-keeps ss a.1 h.1)

  pub encoded-keeps :
      (s : Text) → All IsByte s → All P (segments s) → All P (segments (encode_path s))
  encoded-keeps s a h =
      subst (All P) (sym (segments-encode_path s a))
        (map-keeps (segments s) (segments-IsByte s a) h)

-- A mount that does not start with a separator is not trimmed.
pub trim-encode_path :
    (b : ℕ) (m s : Text)
    → (b == b'/') ≡ false
    → trim_start_matches b'/' (encode_path (b ∷ m) ++ s) ≡ encode_path (b ∷ m) ++ s
unfolding encode_path prepend trim_start_matches
trim-encode_path b m s h = elim (Bool-cases (is_escaped b)) [
  | inl q ↦ rw q refl
  | inr q ↦ rw (q, h) refl
]

pub trim-encoded :
    (b : ℕ) (m : Text)
    → (b == b'/') ≡ false
    → trim_start_matches b'/' (encode_path (b ∷ m)) ≡ encode_path (b ∷ m)
unfolding encode_path prepend trim_start_matches
trim-encoded b m h = elim (Bool-cases (is_escaped b)) [ inl q ↦ rw q refl | inr q ↦ rw (q, h) refl ]

pub encoded_segment :
    (m : Text) → All IsByte m → segments m ≡ m ∷ [] → segments (encode_path m) ≡ encode_path m ∷ []
encoded_segment m a one = segments-encode_path m a ∙ ap (map encode_path) one
