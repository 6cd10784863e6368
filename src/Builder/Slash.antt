-- ===== src/Builder/Slash.antt =====
-- The base URL of the builder in client/async_client.rs.
use vault_client_rs.Prelude.{◌≡◌, true, some, inl, inr, ◌++◌, arith, Bool-cases}
use vault_client_rs.Prelude.Text.{Text, codes, ends_with}
use vault_client_rs.Prelude.Search.{ends_with-append}
use vault_client_rs.Builder.{ClientBuilder, Libraries, Built, with_slash, build}

with_slash-path :
    (libs : Libraries) (u : Text)
    → libs.path (libs.set_path u (libs.path u ++ codes "/")) ≡ libs.path u ++ codes "/"
    → ends_with b'/' (libs.path (with_slash libs u)) ≡ true
unfolding with_slash
with_slash-path libs u sets = elim (Bool-cases (ends_with b'/' (libs.path u))) [
  | inl e ↦ rw e e
  | inr e ↦ rw (e, sets) (ends_with-append b'/' (libs.path u))
]

build-base_url :
    (libs : Libraries) (b : ClientBuilder) (x : Built) (addr u : Text)
    → b.address ≡ some addr
    → libs.parse_url addr ≡ inr u
    → build libs b ≡ inr x
    → x.client.inner.base_url ≡ with_slash libs u
unfolding build
build-base_url libs b x addr u a p e = ground (arith, a, p, e)

-- The base URL of a client has a path that ends in `/`, if the address is a URL whose path can be set to
-- its own path and a `/`. So a request path is joined below it.
pub build-base_url_slash :
    (libs : Libraries) (b : ClientBuilder) (x : Built) (addr u : Text)
    → b.address ≡ some addr
    → libs.parse_url addr ≡ inr u
    → libs.path (libs.set_path u (libs.path u ++ codes "/")) ≡ libs.path u ++ codes "/"
    → build libs b ≡ inr x
    → ends_with b'/' (libs.path x.client.inner.base_url) ≡ true
build-base_url_slash libs b x addr u a p sets e =
    rw (build-base_url libs b x addr u a p e) (with_slash-path libs u sets)
