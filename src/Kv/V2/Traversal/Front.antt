-- ===== src/Kv/V2/Traversal/Front.antt =====
-- The request paths of api/kv2.rs, segment by segment and byte by byte.
use vault_client_rs.Prelude.{
  ◌≡◌, refl, sym, ap, ◌∙◌, subst, List, [], ◌∷◌, ◌++◌, All, All-append, arith, append_assoc,
}
use vault_client_rs.Prelude.Text.{Text, codes}
use vault_client_rs.EncodePath.{is_escaped, prepend, encode_path}
use vault_client_rs.EncodePath.Safe.{IsByte, IsPathByte, encode_path_safe}
use vault_client_rs.EncodePath.Dots.{segments, IsPlain, segments-append}
use vault_client_rs.EncodePath.Plain.{
  IsKept, HasPlainDots, encode_path-IsKept, encode_path-HasPlainDots, segments-HasPlainDots,
}
use vault_client_rs.EncodePath.Segments.{encoded-keeps, encode_path-IsPlain}
use vault_client_rs.Kv.V2.{
  Endpoint, secret_data, metadata, subkeys, deleting, undeleting, destroying, segment, endpoint,
}

pub segment-segments : (e : Endpoint) → segments (segment e) ≡ segment e ∷ []
segment-segments secret_data = refl
segment-segments metadata = refl
segment-segments subkeys = refl
segment-segments deleting = refl
segment-segments undeleting = refl
segment-segments destroying = refl

pub segment-IsPlain : (e : Endpoint) → IsPlain (segment e)
segment-IsPlain secret_data = (refl, refl)
segment-IsPlain metadata = (refl, refl)
segment-IsPlain subkeys = (refl, refl)
segment-IsPlain deleting = (refl, refl)
segment-IsPlain undeleting = (refl, refl)
segment-IsPlain destroying = (refl, refl)

segments-IsPlain : (e : Endpoint) → All IsPlain (segments (segment e))
segments-IsPlain e = subst (All IsPlain) (sym (segment-segments e)) (segment-IsPlain e, tt)

segment-IsPathByte : (e : Endpoint) → All IsPathByte (segment e)
segment-IsPathByte secret_data = ground arith
segment-IsPathByte metadata = ground arith
segment-IsPathByte subkeys = ground arith
segment-IsPathByte deleting = ground arith
segment-IsPathByte undeleting = ground arith
segment-IsPathByte destroying = ground arith

segment-IsKept : (e : Endpoint) → All IsKept (segment e)
segment-IsKept secret_data = ground arith
segment-IsKept metadata = ground arith
segment-IsKept subkeys = ground arith
segment-IsKept deleting = ground arith
segment-IsKept undeleting = ground arith
segment-IsKept destroying = ground arith

pub v1-HasPlainDots : HasPlainDots (codes "v1")
unfolding encode_path prepend is_escaped
v1-HasPlainDots = encode_path-HasPlainDots (codes "v1") (ground arith)

segment-IsByte : (e : Endpoint) → All IsByte (segment e)
segment-IsByte secret_data = ground arith
segment-IsByte metadata = ground arith
segment-IsByte subkeys = ground arith
segment-IsByte deleting = ground arith
segment-IsByte undeleting = ground arith
segment-IsByte destroying = ground arith

encode_path-segment : (e : Endpoint) → encode_path (segment e) ≡ segment e
unfolding encode_path prepend is_escaped
encode_path-segment secret_data = refl
encode_path-segment metadata = refl
encode_path-segment subkeys = refl
encode_path-segment deleting = refl
encode_path-segment undeleting = refl
encode_path-segment destroying = refl

segment-HasPlainDots : (e : Endpoint) → HasPlainDots (segment e)
segment-HasPlainDots e =
    subst HasPlainDots (encode_path-segment e)
      (encode_path-HasPlainDots (segment e) (segment-IsByte e))

-- What stands before the path of a secret.
abbrev pub front : Text → Endpoint → Text
front mount e = codes "v1/" ++ (mount ++ (codes "/" ++ segment e))

pub front-endpoint :
    (mount path : Text) (e : Endpoint)
    → codes "v1/" ++ endpoint mount e path ≡ front mount e ++ (b'/' ∷ encode_path path)
unfolding endpoint
front-endpoint mount path e =
    ap (λ (s : Text). codes "v1/" ++ s)
      (ap (λ (s : Text). mount ++ (b'/' ∷ s)) refl
        ∙ sym (append_assoc mount (b'/' ∷ segment e) (b'/' ∷ encode_path path)))

segments-front :
    (mount : Text) (e : Endpoint)
    → segments (front mount e) ≡ codes "v1" ∷ (segments mount ++ segments (segment e))
segments-front mount e =
    segments-append (codes "v1") (mount ++ (b'/' ∷ segment e))
    ∙ ap (λ (ss : List Text). codes "v1" ∷ ss) (segments-append mount (segment e))

pub front-IsPlain :
    (m : Text) (e : Endpoint)
    → All IsByte m
    → All IsPlain (segments m)
    → All IsPlain (segments (front (encode_path m) e))
front-IsPlain m e a h = subst (All IsPlain) (sym (segments-front (encode_path m) e)) (
  (refl, refl),
  All-append IsPlain (segments (encode_path m)) (segments (segment e))
      (encoded-keeps IsPlain encode_path-IsPlain m a h) (segments-IsPlain e),
)

pub endpoint-IsPathByte :
    (m path : Text) (e : Endpoint)
    → All IsByte m
    → All IsByte path
    → All IsPathByte (codes "v1/" ++ endpoint (encode_path m) e path)
unfolding endpoint
endpoint-IsPathByte m path e hm hp =
    All-append IsPathByte (codes "v1/") (endpoint (encode_path m) e path) (ground arith) (
      All-append IsPathByte (encode_path m) _ (encode_path_safe m hm).0 (
        All-append IsPathByte (codes "/") _ (ground arith) (
          All-append IsPathByte (segment e) _ (segment-IsPathByte e)
            (All-append IsPathByte (codes "/") _ (ground arith) (encode_path_safe path hp).0))))

pub endpoint-IsKept :
    (m path : Text) (e : Endpoint)
    → All IsByte m
    → All IsByte path
    → All IsKept m
    → All IsKept path
    → All IsKept (codes "v1/" ++ endpoint (encode_path m) e path)
unfolding endpoint
endpoint-IsKept m path e hm hp km kp =
    All-append IsKept (codes "v1/") (endpoint (encode_path m) e path) (ground arith) (
      All-append IsKept (encode_path m) _ (encode_path-IsKept m hm km) (
        All-append IsKept (codes "/") _ (ground arith) (
          All-append IsKept (segment e) _ (segment-IsKept e)
            (All-append IsKept (codes "/") _ (ground arith) (encode_path-IsKept path hp kp)))))

pub endpoint-HasPlainDots :
    (m path : Text) (e : Endpoint)
    → All IsByte m
    → All IsByte path
    → All HasPlainDots (segments (codes "v1/" ++ endpoint (encode_path m) e path))
endpoint-HasPlainDots m path e hm hp =
    subst (All HasPlainDots)
      (sym (
        ap segments (front-endpoint (encode_path m) path e)
        ∙ segments-append (front (encode_path m) e) (encode_path path)))
      (All-append HasPlainDots (segments (front (encode_path m) e)) (segments (encode_path path))
        (subst (All HasPlainDots) (sym (segments-front (encode_path m) e)) (
          v1-HasPlainDots,
          All-append HasPlainDots (segments (encode_path m)) (segments (segment e))
              (segments-HasPlainDots m hm)
              (subst (All HasPlainDots) (sym (segment-segments e)) (segment-HasPlainDots e, tt)),
        ))
        (segments-HasPlainDots path hp))
