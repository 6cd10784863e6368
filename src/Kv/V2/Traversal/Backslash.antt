-- ===== src/Kv/V2/Traversal/Backslash.antt =====
-- Backslashes in the paths of api/kv2.rs, which `encode_path` leaves and `Url::parse` takes for slashes.
use vault_client_rs.Prelude.{
  ℕ, ◌/◌, ◌%◌, ◌<◌, ◌≡◌, refl, sym, ap, ◌∙◌, true, false, Option, inl, inr, [], ◌∷◌, ◌++◌, map, All,
  ◌==◌, if◌then◌else◌, arith, Bool-cases,
}
use vault_client_rs.Prelude.Text.{Text, codes}
use vault_client_rs.Json.{Json}
use vault_client_rs.EncodePath.{is_escaped, hex_digit, prepend, encode_path}
use vault_client_rs.EncodePath.Safe.{IsByte, IsPathByte}
use vault_client_rs.EncodePath.Segments.{trim-encode_path}
use vault_client_rs.Client.{VaultClient}
use vault_client_rs.Effect.{Env, Method, World}
use vault_client_rs.Request.{execute_raw}
use vault_client_rs.Request.Addressed.{execute_raw-same_url}
use vault_client_rs.Kv.V2.{
  Endpoint, secret_data, metadata, subkeys, deleting, undeleting, destroying, segment, endpoint,
}
use vault_client_rs.Kv.V2.Traversal.Front.{endpoint-IsPathByte}

-- A backslash as a slash, and any other byte as it is.
abbrev pub slash : ℕ → ℕ
slash b = if b == 92 then b'/' else b

abbrev pub slashes : Text → Text
slashes s = map slash s

-- `Url::parse` on the paths below an http or https base URL: a backslash separates as a slash does.
abbrev pub TakesBackslashes : Env → Text → Type 0
TakesBackslashes env base =
    (p : Text) → All IsPathByte p → env.parse_url (base ++ p) ≡ env.parse_url (base ++ slashes p)

slashes-append : (s t : Text) → slashes (s ++ t) ≡ slashes s ++ slashes t
slashes-append [] t = refl
slashes-append (b ∷ s) t = ap (λ (u : Text). slash b ∷ u) (slashes-append s t)

slash-hex_digit : (d : ℕ) → d < 16 → slash (hex_digit d) ≡ hex_digit d
unfolding hex_digit
slash-hex_digit d h = ground arith

is_escaped-slash : (b : ℕ) → is_escaped (slash b) ≡ is_escaped b
unfolding is_escaped
is_escaped-slash b = elim (Bool-cases (b == 92)) [
  | inl e ↦ let same : b ≡ 92 = ground arith in rw same refl
  | inr e ↦ rw e refl
]

escaped-slash : (b : ℕ) → is_escaped b ≡ true → slash b ≡ b
unfolding is_escaped
escaped-slash b h = ground arith

slashes-prepend :
    (b : ℕ) (out : Text) → IsByte b → slashes (prepend b out) ≡ prepend (slash b) (slashes out)
unfolding prepend
slashes-prepend b out lt = elim (Bool-cases (is_escaped b)) [
  | inl e ↦
      rw
        (
          is_escaped-slash b,
          e,
          escaped-slash b e,
          slash-hex_digit (b / 16) (omega arith),
          slash-hex_digit (b % 16) (omega arith),
        )
        refl
  | inr e ↦ rw (is_escaped-slash b, e) refl
]

slashes-encode_path :
    (raw : Text) → All IsByte raw → slashes (encode_path raw) ≡ encode_path (slashes raw)
unfolding encode_path
slashes-encode_path [] a = refl
slashes-encode_path (b ∷ raw) a =
    slashes-prepend b (encode_path raw) a.0 ∙ ap (prepend (slash b)) (slashes-encode_path raw a.1)

slashes-segment : (e : Endpoint) → slashes (segment e) ≡ segment e
slashes-segment secret_data = refl
slashes-segment metadata = refl
slashes-segment subkeys = refl
slashes-segment deleting = refl
slashes-segment undeleting = refl
slashes-segment destroying = refl

slashes-endpoint :
    (m path : Text) (e : Endpoint)
    → All IsByte m
    → All IsByte path
    → slashes (endpoint (encode_path m) e path)
      ≡ endpoint (encode_path (slashes m)) e (slashes path)
unfolding endpoint
slashes-endpoint m path e hm hp =
    rw
      (
        slashes-append (encode_path m) (b'/' ∷ (segment e ++ (b'/' ∷ encode_path path))),
        slashes-append (segment e) (b'/' ∷ encode_path path),
        slashes-segment e,
        slashes-encode_path m hm,
        slashes-encode_path path hp,
      )
      refl

-- A request for a secret at an endpoint is the request with every backslash of its mount and of its path
-- written as a slash: two secrets whose paths differ so are the same to the server, and `..\` leads up
-- as `../` does; given that `Url::parse` takes a backslash for a slash. The mount starts with neither.
pub endpoint-slashes :
    (env : Env) (c : VaultClient)
    → TakesBackslashes env c.inner.base_url
    → (method : Method) (b : ℕ) (m : Text) (e : Endpoint) (path : Text) (body : Option Json)
      (w : World)
    → (b == b'/') ≡ false
    → (b == 92) ≡ false
    → All IsByte (b ∷ m)
    → All IsByte path
    → execute_raw env c method (endpoint (encode_path (b ∷ m)) e path) body w
      ≡ execute_raw env c method (endpoint (encode_path (b ∷ slashes m)) e (slashes path)) body w
unfolding endpoint
endpoint-slashes env c takes method b m e path body w hb hs hm hp =
    let first : slash b ≡ b = rw hs refl in
    let written : slashes (codes "v1/" ++ endpoint (encode_path (b ∷ m)) e path)
        ≡ codes "v1/" ++ endpoint (encode_path (b ∷ slashes m)) e (slashes path) =
      ap (λ (s : Text). codes "v1/" ++ s)
        (slashes-endpoint (b ∷ m) path e hm hp
          ∙ ap (λ (x : ℕ). endpoint (encode_path (x ∷ slashes m)) e (slashes path)) first) in
    execute_raw-same_url env c method (endpoint (encode_path (b ∷ m)) e path)
      (endpoint (encode_path (b ∷ slashes m)) e (slashes path)) body w
      (ap (λ (s : Text). env.parse_url (c.inner.base_url ++ (codes "v1/" ++ s)))
          (trim-encode_path b m _ hb)
        ∙ (takes _ (endpoint-IsPathByte (b ∷ m) path e hm hp)
            ∙ (ap (λ (s : Text). env.parse_url (c.inner.base_url ++ s)) written
                ∙ sym (
                    ap (λ (s : Text). env.parse_url (c.inner.base_url ++ (codes "v1/" ++ s)))
                      (trim-encode_path b (slashes m) _ hb)))))
