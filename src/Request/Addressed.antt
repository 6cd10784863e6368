-- ===== src/Request/Addressed.antt =====
-- Which requests `execute_raw` of client/async_client.rs sends.
use vault_client_rs.Prelude.{
  ℕ, ◌+◌, ◌≡◌, refl, sym, subst, length, arith, Option, none, some, List, ◌∷◌, ◌++◌, inr,
}
use vault_client_rs.Prelude.Text.{Text, codes, trim_start_matches}
use vault_client_rs.Json.{Json}
use vault_client_rs.CircuitBreaker.{CircuitBreaker}
use vault_client_rs.Client.{ClientConfig, VaultClient}
use vault_client_rs.Effect.{
  Env, Method, Request, Response, World, Exit, ok, err, panicked, M, continue, send,
}
use vault_client_rs.Retry.{send_clone, try_once, send_with_retry}
use vault_client_rs.Retry.Loop.{sent-on_outcome, back_off_returns}
use vault_client_rs.Retry.Frame.{send_with_retry_keeps}
use vault_client_rs.Request.{
  check_breaker, settle, parsed, inject_headers, send_and_record, execute_raw, base_headers,
}

-- A log, the newest first, that has grown by entries with the property.
pub data Grown (Q : Request → Type 0) (before : List Request) : List Request → Type 0 where
  same : Grown Q before before
  grew :
      (r : Request) (after : List Request) → Q r → Grown Q before after → Grown Q before (r ∷ after)

-- A request with this method and body, to this URL.
pub record IsTo (method : Method) (url : Text) (body : Option Json) (r : Request) : Type 0 where
  pub method_is : r.method ≡ method
  pub url_is : r.url ≡ url
  pub body_is : r.body ≡ body

module _ (env : Env) (clones : (r r' : Request) → env.try_clone r ≡ some r' → r' ≡ r)
    (c : ClientConfig) (url : Text) where
  abbrev Logs : (Request → Type 0) → World → World → Type 0
  Logs Q w0 w = Grown Q w0.sent w.sent

  sent-send_clone :
      (Q : Request → Type 0) (attempt : ℕ) (o : Option Request) (w0 w : World)
      → ((r : Request) → o ≡ some r → Q r)
      → Logs Q w0 w
      → Logs Q w0 (send_clone env c url attempt o w).1
  unfolding send_clone send
  sent-send_clone Q attempt none w0 w h g = g
  sent-send_clone Q attempt (some r) w0 w h g =
      let o = env.send (length w.sent) r in
      let w' = record w { now = w.now + env.latency (length w.sent); sent = r ∷ w.sent } in
      subst (Grown Q w0.sent) (sym (sent-on_outcome env c url attempt o w'))
        (grew r w.sent (h r refl) g)

  send_with_retry-Logs :
      (Q : Request → Type 0) (req : Request) (w0 w : World)
      → Q req
      → Logs Q w0 w
      → Logs Q w0 (send_with_retry env c url req w).1
  unfolding try_once
  send_with_retry-Logs Q req w0 w h g =
      send_with_retry_keeps (Logs Q w0) env c url req
        (λ attempt skip w' l.
          subst (Grown Q w0.sent) (sym (back_off_returns env c url attempt skip w').1) l)
        (λ attempt w' l.
          sent-send_clone Q attempt (env.try_clone req) w0 w'
            (λ r e. subst Q (sym (clones req r e)) h) l)
        w g

Grown-continue :
    {A B : Type 0} (Q : Request → Type 0) (w0 : World) (r : Exit A) (f : A → M B) (w : World)
    → Grown Q w0.sent w.sent
    → ((a : A) → r ≡ ok a → Grown Q w0.sent (f a w).1.sent)
    → Grown Q w0.sent (continue r f w).1.sent
Grown-continue Q w0 (ok a) f w g h = h a refl
Grown-continue Q w0 (err e) f w g h = g
Grown-continue Q w0 panicked f w g h = g

sent-settle :
    (r : Exit Response) (b : Option CircuitBreaker) (w : World) → (settle r b w).sent ≡ w.sent
unfolding settle
sent-settle r none w = refl
sent-settle r (some cb) w = refl

sent-check_breaker : (b : Option CircuitBreaker) (w : World) → (check_breaker b w).1.sent ≡ w.sent
unfolding check_breaker
sent-check_breaker none w = refl
sent-check_breaker (some cb) w = refl

sent-inject_headers :
    (c : VaultClient) (req : Request) (w : World) → (inject_headers c req w).1.sent ≡ w.sent
unfolding inject_headers
sent-inject_headers c req w = ground arith

inject_headers-IsTo :
    (c : VaultClient) (req r : Request) (w : World)
    → (inject_headers c req w).0 ≡ ok r
    → IsTo req.method req.url req.body r
unfolding inject_headers
inject_headers-IsTo c req r w e = ground arith

-- Every request that `execute_raw` sends has the method and the body that it was given and goes to the
-- URL that the path parses to, if a clone of a request is that request.
pub execute_raw-Addressed :
    (env : Env)
    → ((r r' : Request) → env.try_clone r ≡ some r' → r' ≡ r)
    → (c : VaultClient) (method : Method) (path : Text) (body : Option Json) (u : Text) (w : World)
    → env.parse_url (c.inner.base_url ++ (codes "v1/" ++ trim_start_matches b'/' path)) ≡ inr u
    → Grown (IsTo method u body) w.sent (execute_raw env c method path body w).1.sent
unfolding execute_raw parsed send_and_record
execute_raw-Addressed env clones c method path body u w e =
    let w1 = (check_breaker w.circuit_breaker w).1 in
    let start : Grown (IsTo method u body) w.sent w1.sent =
      subst (Grown (IsTo method u body) w.sent) (sym (sent-check_breaker w.circuit_breaker w))
        same in
    Grown-continue (IsTo method u body) w (check_breaker w.circuit_breaker w).0 _ w1 start λ _ _.
      rw e (
        let req : Request = record {
          method = method;
          url = u;
          headers = base_headers method;
          body = none;
        } in
        let (i, w2) = inject_headers c req w1 in
        let injected : Grown (IsTo method u body) w.sent w2.sent =
          subst (Grown (IsTo method u body) w.sent) (sym (sent-inject_headers c req w1)) start in
        Grown-continue (IsTo method u body) w i _ w2 injected λ r h.
          let to = inject_headers-IsTo c req r w1 h in
          let sending : Request = (let r' : Request = r in record r' { body = body }) in
          let (x, w3) = send_with_retry env c.inner.config u sending w2 in
          subst (Grown (IsTo method u body) w.sent) (sym (sent-settle x w3.circuit_breaker w3)) (
            send_with_retry-Logs env clones c.inner.config u (IsTo method u body) sending w w2
              (record { method_is = to.method_is; url_is = to.url_is; body_is = refl }) injected))

-- Paths that parse to the same URL make the same request.
pub execute_raw-same_url :
    (env : Env) (c : VaultClient) (method : Method) (p q : Text) (body : Option Json) (w : World)
    → env.parse_url (c.inner.base_url ++ (codes "v1/" ++ trim_start_matches b'/' p))
      ≡ env.parse_url (c.inner.base_url ++ (codes "v1/" ++ trim_start_matches b'/' q))
    → execute_raw env c method p body w ≡ execute_raw env c method q body w
unfolding execute_raw
execute_raw-same_url env c method p q body w e = rw e refl
