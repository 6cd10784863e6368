-- ===== src/Kv/V2/Endpoints.antt =====
-- The request paths of api/kv2.rs: what they address can be read off them.
use vault_client_rs.Prelude.{
  ℕ, ◌<◌, ◌^◌, ◌≡◌, ◌≢◌, refl, sym, ap, ◌∙◌, Option, none, some, [], ◌∷◌, ◌++◌, All, if◌then◌else◌,
  arith, append_assoc,
}
use vault_client_rs.Prelude.Text.{Text, codes, text_eq}
use vault_client_rs.EncodePath.{encode_path}
use vault_client_rs.EncodePath.Safe.{IsByte, IsPathByte, encode_path_safe}
use vault_client_rs.EncodePath.RoundTrip.{encode_path-injective}
use vault_client_rs.Kv.Decimal.{decimal-injective}
use vault_client_rs.Kv.V2.{
  Endpoint, secret_data, metadata, subkeys, deleting, undeleting, destroying, segment, endpoint,
  version_url,
}

append-cancel : (p x y : Text) → p ++ x ≡ p ++ y → x ≡ y
append-cancel [] x y e = e
append-cancel (b ∷ p) x y e = append-cancel p x y (cc e)

-- Two texts are cut at the first separator in the same way.
cut :
    (c : ℕ) (a b x y : Text)
    → All (λ d. d ≢ c) a
    → All (λ d. d ≢ c) b
    → a ++ c ∷ x ≡ b ++ c ∷ y
    → (a ≡ b) × (x ≡ y)
cut c [] [] x y h k e = (refl, cc e)
cut c [] (d ∷ b) x y h k e = absurd (k.0 (cc e))
cut c (d ∷ a) [] x y h k e = absurd (h.0 (cc e))
cut c (d ∷ a) (d' ∷ b) x y h k e =
    let same : d ≡ d' = cc e in let (l, r) = cut c a b x y h.1 k.1 (cc e) in (cc (same, l), r)

abbrev read_segment : Text → Option Endpoint
read_segment s =
    if text_eq s (codes "data")
    then some secret_data
    else if text_eq s (codes "metadata")
    then some metadata
    else if text_eq s (codes "subkeys")
    then some subkeys
    else if text_eq s (codes "delete")
    then some deleting
    else if text_eq s (codes "undelete")
    then some undeleting
    else if text_eq s (codes "destroy")
    then some destroying
    else none

read_segment-segment : (e : Endpoint) → read_segment (segment e) ≡ some e
read_segment-segment secret_data = refl
read_segment-segment metadata = refl
read_segment-segment subkeys = refl
read_segment-segment deleting = refl
read_segment-segment undeleting = refl
read_segment-segment destroying = refl

segment-injective : (e f : Endpoint) → segment e ≡ segment f → e ≡ f
segment-injective e f h = cc (read_segment-segment e, read_segment-segment f, ap read_segment h)

segment-no_separator : (e : Endpoint) → All (λ d. d ≢ b'/') (segment e)
segment-no_separator secret_data = ground arith
segment-no_separator metadata = ground arith
segment-no_separator subkeys = ground arith
segment-no_separator deleting = ground arith
segment-no_separator undeleting = ground arith
segment-no_separator destroying = ground arith

-- On a mount, the path that is built for a secret (any bytes) at an endpoint tells the endpoint and the
-- secret. This is the path before the URL parser looks at it.
pub endpoint-injective :
    (mount : Text) (e f : Endpoint) (p q : Text)
    → All IsByte p
    → All IsByte q
    → endpoint mount e p ≡ endpoint mount f q
    → (e ≡ f) × (p ≡ q)
unfolding endpoint
endpoint-injective mount e f p q hp hq h =
    let inner = append-cancel (codes "/") _ _ (append-cancel mount _ _ h) in
    let (s, r) =
      cut b'/' (segment e) (segment f) (encode_path p) (encode_path q) (segment-no_separator e)
        (segment-no_separator f) inner in
    (segment-injective e f s, encode_path-injective p q hp hq r)

path-no_query : (s : Text) → All IsPathByte s → All (λ d. d ≢ b'?') s
path-no_query [] h = tt
path-no_query (b ∷ s) h = (h.0.no_query, path-no_query s h.1)

-- The request path of a version of a secret tells the secret and the version, for 64-bit versions: no
-- character of a secret's path is taken for the query.
pub version_url-injective :
    (mount p q : Text) (m n : ℕ)
    → All IsByte p
    → All IsByte q
    → m < 2 ^ 64
    → n < 2 ^ 64
    → version_url mount p m ≡ version_url mount q n
    → (p ≡ q) × (m ≡ n)
unfolding version_url endpoint
version_url-injective mount p q m n hp hq hm hn h =
    let front = mount ++ (codes "/data/") in
    let whole : (s t : Text)
        → (mount ++ (codes "/" ++ (codes "data" ++ (codes "/" ++ s)))) ++ t ≡ front ++ (s ++ t) =
      λ s t.
        append_assoc mount (codes "/data/" ++ s) t
        ∙ sym (append_assoc mount (codes "/data/") (s ++ t)) in
    let inner =
      append-cancel front _ _ (sym (whole (encode_path p) _) ∙ (h ∙ whole (encode_path q) _)) in
    let (s, r) =
      cut b'?' (encode_path p) (encode_path q) _ _
        (path-no_query (encode_path p) (encode_path_safe p hp).0)
        (path-no_query (encode_path q) (encode_path_safe q hq).0) inner in
    (
      encode_path-injective p q hp hq s,
      decimal-injective m n hm hn (append-cancel (codes "version=") _ _ r),
    )
