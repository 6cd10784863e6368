-- ===== src/Request/Precedence.antt =====
-- The headers that client/async_client.rs adds, for the views that `with_namespace` and `with_wrap_ttl`
-- give.
use vault_client_rs.Prelude.{
  Bool, ◌≡◌, sym, ◌∙◌, arith, Option, none, some, [], ◌∷◌, ◌++◌, if◌then◌else◌, or_option,
}
use vault_client_rs.Prelude.Text.{Text, codes, text_eq}
use vault_client_rs.Client.{VaultClient, with_namespace, with_wrap_ttl}
use vault_client_rs.Effect.{TokenState}
use vault_client_rs.Request.{Headers, header_if, token_value, injected}

-- The value of a header, the first one if there are several.
abbrev pub header : Text → Headers → Option Text
header name [] = none
header name ((k, v) ∷ hs) = let rest = header name hs in if text_eq k name then some v else rest

abbrev four : Option Text → Option Text → Option Text → Bool → Headers
four token ns ttl forward =
    header_if "X-Vault-Token" token
    ++ (header_if "X-Vault-Namespace" ns
        ++ (header_if "X-Vault-Wrap-TTL" ttl
            ++ (if forward then (codes "X-Vault-Forward", codes "active-node") ∷ [] else [])))

module _ (token ns ttl : Option Text) (forward : Bool) where
  header-four :
      (header (codes "X-Vault-Token") (four token ns ttl forward) ≡ token)
      × (header (codes "X-Vault-Namespace") (four token ns ttl forward) ≡ ns)
      × (header (codes "X-Vault-Wrap-TTL") (four token ns ttl forward) ≡ ttl)
  header-four = ground arith

-- A request of a view has the namespace, or the wrap TTL, of that view, whatever the client that it was
-- made from has; each view leaves the other header and the token's as that client has them.
pub injected-view :
    (ns ttl : Text) (c : VaultClient) (token : Option TokenState)
    → let h = injected c token in
      let h_ns = injected (with_namespace ns c) token in
      let h_ttl = injected (with_wrap_ttl ttl c) token in
      (header (codes "X-Vault-Namespace") h_ns ≡ some ns)
      × (header (codes "X-Vault-Wrap-TTL") h_ns ≡ header (codes "X-Vault-Wrap-TTL") h)
      × (header (codes "X-Vault-Token") h_ns ≡ token_value token)
      × (header (codes "X-Vault-Wrap-TTL") h_ttl ≡ some ttl)
      × (header (codes "X-Vault-Namespace") h_ttl ≡ header (codes "X-Vault-Namespace") h)
      × (header (codes "X-Vault-Token") h_ttl ≡ token_value token)
unfolding injected with_namespace with_wrap_ttl
injected-view ns ttl c token =
    let forward = c.inner.config.forward_to_leader in
    let own_ns = or_option c.view.namespace_override c.inner.namespace in
    let own_ttl = or_option c.view.wrap_ttl_override c.inner.config.wrap_ttl in
    let h = header-four (token_value token) own_ns own_ttl forward in
    let v = header-four (token_value token) (some ns) own_ttl forward in
    let t = header-four (token_value token) own_ns (some ttl) forward in
    (v.1, v.2 ∙ sym h.2, v.0, t.2, t.1 ∙ sym h.1, t.0)
