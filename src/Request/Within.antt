-- ===== src/Request/Within.antt =====
-- What `execute_raw` of client/async_client.rs may change and return, on every path.
use vault_client_rs.Prelude.{
  ℕ, ◌+◌, ◌≤◌, ◌≡◌, ◌≢◌, refl, Option, none, some, ◌++◌, ◌⊎◌, length, arith,
}
use vault_client_rs.Prelude.Text.{Text, codes, trim_start_matches}
use vault_client_rs.Json.{Json}
use vault_client_rs.CircuitBreaker.{CircuitBreaker}
use vault_client_rs.Client.{VaultClient}
use vault_client_rs.Effect.{
  Env, Method, Request, Response, World, Exit, ok, err, panicked, M, continue,
}
use vault_client_rs.Retry.{send_with_retry}
use vault_client_rs.Retry.Statuses.{IsSuccess}
use vault_client_rs.Retry.Frame.{send_with_retry-SameClient}
use vault_client_rs.Retry.Loop.{Ends, send_with_retry-Ends}
use vault_client_rs.Request.{
  check_breaker, settle, parsed, inject_headers, send_and_record, execute_raw, base_headers,
}

-- What a step of a request may change: the breaker, the clock and the logs of sleeps and requests, of
-- which it adds at most `k`.
pub record Within (k : ℕ) (w w' : World) : Type 0 where
  pub token : w'.token ≡ w.token
  pub token_poisoned : w'.token_poisoned ≡ w.token_poisoned
  pub token_changes : w'.token_changes ≡ w.token_changes
  pub clock : w.now ≤ w'.now
  pub more : length w.sent ≤ length w'.sent
  pub fewer : length w'.sent ≤ length w.sent + k

-- What may be returned: a response only with a status of 2xx or 404, and never a panic.
abbrev pub IsAnswer : Exit Response → Type 0
IsAnswer (ok resp) = IsSuccess resp.status
IsAnswer (err e) = Unit
IsAnswer panicked = ⊥

Within-bind :
    {A : Type 0} (k : ℕ) (w : World) (r : Exit A) (f : A → M Response) (w' : World)
    → Within 0 w w'
    → (r ≢ panicked)
    → ((a : A) → Within k w (f a w').1 × IsAnswer (f a w').0)
    → Within k w (continue r f w').1 × IsAnswer (continue r f w').0
Within-bind k w (ok a) f w' h p q = q a
Within-bind k w (err e) f w' h p q = (ground arith, tt)
Within-bind k w panicked f w' h p q = absurd (p refl)

module _ (env : Env) (c : VaultClient) where
  abbrev pub budget : ℕ
  budget = c.inner.config.max_retries + 1

  pub Ends-IsAnswer : (n : ℕ) (r : Exit Response) → Ends c.inner.config n r → IsAnswer r
  Ends-IsAnswer n (ok resp) h = h
  Ends-IsAnswer n (err e) h = tt
  Ends-IsAnswer n panicked h = h

  settle-keeps :
      (r : Exit Response) (b : Option CircuitBreaker) (k : ℕ) (w w' : World)
      → Within k w w'
      → Within k w (settle r b w')
  unfolding settle
  settle-keeps r none k w w' h = h
  settle-keeps r (some cb) k w w' h = ground arith

  send_and_record-Within :
      (u : Text) (req : Request) (w0 w : World)
      → Within 0 w0 w
      → Within budget w0 (send_and_record env c.inner.config u req w).1
        × IsAnswer (send_and_record env c.inner.config u req w).0
  unfolding send_and_record
  send_and_record-Within u req w0 w h =
      let (r, w') = send_with_retry env c.inner.config u req w in
      let ends = send_with_retry-Ends env c.inner.config u req w in
      let same = send_with_retry-SameClient env c.inner.config u req w in
      (settle-keeps r w'.circuit_breaker budget w0 w' (ground arith), Ends-IsAnswer _ r ends.2)

  check_breaker-Within :
      (b : Option CircuitBreaker) (w : World)
      → Within 0 w (check_breaker b w).1 × ((check_breaker b w).0 ≢ panicked)
  unfolding check_breaker
  check_breaker-Within none w = ground arith
  check_breaker-Within (some cb) w = ground arith

  parsed-Within :
      (o : Text ⊎ Text) (w0 w : World)
      → Within 0 w0 w
      → Within 0 w0 (parsed o w).1 × ((parsed o w).0 ≢ panicked)
  unfolding parsed
  parsed-Within o w0 w h = ground arith

  inject_headers-Within :
      (req : Request) (w0 w : World)
      → Within 0 w0 w
      → Within 0 w0 (inject_headers c req w).1 × ((inject_headers c req w).0 ≢ panicked)
  unfolding inject_headers
  inject_headers-Within req w0 w h = ground arith

  -- On every path, errors included: `execute_raw` does not panic, sends at most `max_retries` + 1
  -- requests, leaves the token and its callback alone, and returns a response only with a status of
  -- 2xx or 404.
  pub execute_raw-Within :
      (method : Method) (path : Text) (body : Option Json) (w : World)
      → Within budget w (execute_raw env c method path body w).1
        × IsAnswer (execute_raw env c method path body w).0
  unfolding execute_raw
  execute_raw-Within method path body w =
      let (b, w1) = check_breaker w.circuit_breaker w in
      let (b-in, b-ok) = check_breaker-Within w.circuit_breaker w in
      Within-bind budget w b _ w1 b-in b-ok λ _.
        let o = env.parse_url (c.inner.base_url ++ (codes "v1/" ++ trim_start_matches b'/' path)) in
        let (p-in, p-ok) = parsed-Within o w w1 b-in in
        Within-bind budget w (parsed o w1).0 _ (parsed o w1).1 p-in p-ok λ u.
          let req : Request = record {
            method = method;
            url = u;
            headers = base_headers method;
            body = none;
          } in
          let w2 = (parsed o w1).1 in
          let (i-in, i-ok) = inject_headers-Within req w w2 p-in in
          Within-bind budget w (inject_headers c req w2).0 _ (inject_headers c req w2).1 i-in i-ok
            λ r.
              send_and_record-Within u (let r' : Request = r in record r' { body = body }) w
                (inject_headers c req w2).1 i-in
