-- ===== src/Request/Breaking.antt =====
-- How `execute_raw` of client/async_client.rs and the circuit breaker work together.
use vault_client_rs.Prelude.{
  ℕ, ◌+◌, ◌^◌, ◌≤◌, ◌<◌, ◌≡◌, false, Option, none, some, ◌++◌, ◌⊎◌, inr, arith,
}
use vault_client_rs.Prelude.Text.{Text, codes, trim_start_matches}
use vault_client_rs.Json.{Json}
use vault_client_rs.VaultError.{VaultError, circuit_open}
use vault_client_rs.CircuitBreaker.{
  CircuitBreaker, closed, opened, half_open, check, record_success, record_failure,
}
use vault_client_rs.Client.{VaultClient}
use vault_client_rs.Effect.{Env, Method, Request, Response, World, Exit, ok, err, panicked}
use vault_client_rs.Retry.{send_with_retry}
use vault_client_rs.Retry.Frame.{send_with_retry-SameClient}
use vault_client_rs.Retry.Loop.{send_with_retry-Ends}
use vault_client_rs.Request.{
  check_breaker, settle, parsed, injected, send_and_record, execute_raw, base_headers,
}
use vault_client_rs.Request.Within.{IsAnswer, Ends-IsAnswer}

module _ (env : Env) (c : VaultClient) (method : Method) (path : Text) (body : Option Json)
    (w : World) where
  -- A request that the breaker refuses is not sent, and nothing changes.
  execute_raw-refused :
      (cb : CircuitBreaker) {e : VaultError}
      → w.circuit_breaker ≡ some cb
      → check w.now cb ≡ (cb, some e)
      → execute_raw env c method path body w ≡ (err e, w)
  unfolding execute_raw
  execute_raw-refused cb b h = rw (b, check_breaker, h)

  abbrev target : Text
  target = c.inner.base_url ++ (codes "v1/" ++ trim_start_matches b'/' path)

  -- The request that goes out.
  abbrev outgoing : Text → Request
  outgoing u = record {
    method = method;
    url = u;
    headers = base_headers method ++ injected c w.token;
    body = body;
  }

  execute_raw-admitted :
      (cb cb' : CircuitBreaker) (u : Text)
      → w.circuit_breaker ≡ some cb
      → check w.now cb ≡ (cb', none)
      → w.token_poisoned ≡ false
      → env.parse_url target ≡ inr u
      → execute_raw env c method path body w
        ≡ send_and_record env c.inner.config u
            (outgoing u)
            (record w { circuit_breaker = some cb' })
  unfolding execute_raw
  execute_raw-admitted cb cb' u b h p t = rw (b, check_breaker, h, p, t, parsed)

-- What the breaker has recorded once a request that it let through is over.
abbrev pub IsRecorded : CircuitBreaker → Exit Response × World → Type 0
IsRecorded cb (ok resp, w) = w.circuit_breaker ≡ some (record_success cb)
IsRecorded cb (err e, w) = w.circuit_breaker ≡ some (record_failure w.now cb)
IsRecorded cb (panicked, w) = ⊥

settle-IsRecorded :
    (cb : CircuitBreaker) (r : Exit Response) (w : World)
    → IsAnswer r
    → w.circuit_breaker ≡ some cb
    → IsRecorded cb (r, settle r w.circuit_breaker w)
unfolding settle
settle-IsRecorded cb (ok resp) w h b = rw (b, settle)
settle-IsRecorded cb (err e) w h b = rw (b, settle)
settle-IsRecorded cb panicked w h b = h

check-waiting :
    (cb : CircuitBreaker) (since now : ℕ)
    → cb.poisoned ≡ false
    → (cb.state ≡ opened since) ⊎ (cb.state ≡ half_open since)
    → since ≤ now
    → now < since + cb.config.reset_timeout
    → check now cb ≡ (cb, some circuit_open)
unfolding check
check-waiting cb since now p s ge lt = ground arith

check-closed :
    (cb : CircuitBreaker) (n now : ℕ)
    → cb.poisoned ≡ false
    → cb.state ≡ closed n
    → check now cb ≡ (cb, none)
unfolding check
check-closed cb n now p s = ground arith

IsRecorded-trips :
    (cb : CircuitBreaker) (n : ℕ) (e : VaultError) (x : Exit Response × World)
    → cb.poisoned ≡ false
    → cb.state ≡ closed n
    → n + 1 < 2 ^ 32
    → cb.config.failure_threshold ≤ n + 1
    → x.0 ≡ err e
    → IsRecorded cb x
    → x.1.circuit_breaker ≡ some (record cb { state = opened x.1.now })
unfolding record_failure
IsRecorded-trips cb n e x q s fits trips r h = ground arith

module _ (env : Env) (c : VaultClient) (method : Method) (path : Text) (body : Option Json)
    (w : World) where
  -- A request that the breaker lets through, with a readable token and a URL that parses, is recorded
  -- when it is over: as a success if a response is returned, and as a failure, at that time, if any
  -- error is, whatever the kind of the error.
  pub execute_raw-IsRecorded :
      (cb cb' : CircuitBreaker) (u : Text)
      → w.circuit_breaker ≡ some cb
      → check w.now cb ≡ (cb', none)
      → w.token_poisoned ≡ false
      → env.parse_url (c.inner.base_url ++ (codes "v1/" ++ trim_start_matches b'/' path)) ≡ inr u
      → IsRecorded cb' (execute_raw env c method path body w)
  execute_raw-IsRecorded cb cb' u b h p t =
      rw (execute_raw-admitted env c method path body w cb cb' u b h p t) (
        unfold send_and_record in
        let w0 = record w { circuit_breaker = some cb' } in
        let req = outgoing env c method path body w u in
        let (r, w') = send_with_retry env c.inner.config u req w0 in
        settle-IsRecorded cb' r w'
          (Ends-IsAnswer env c _ r (send_with_retry-Ends env c.inner.config u req w0).2)
          (send_with_retry-SameClient env c.inner.config u req w0).circuit_breaker)

  -- While a breaker with a healthy lock is open or half-open and its reset timeout has not passed since
  -- a time that is not in the future, no request is sent:
  -- the call returns `CircuitOpen` at once and changes nothing.
  pub execute_raw-open :
      (cb : CircuitBreaker) (since : ℕ)
      → w.circuit_breaker ≡ some cb
      → cb.poisoned ≡ false
      → (cb.state ≡ opened since) ⊎ (cb.state ≡ half_open since)
      → since ≤ w.now
      → w.now < since + cb.config.reset_timeout
      → execute_raw env c method path body w ≡ (err circuit_open, w)
  execute_raw-open cb since b p s ge lt =
      execute_raw-refused env c method path body w cb b (check-waiting cb since w.now p s ge lt)

  -- A closed breaker with a healthy lock, one failure short of its threshold, opens on any error that a
  -- request ends with, for a readable token and a URL that parses: a refusal of the client's own
  -- request (such as 400 or 403) counts as one.
  pub execute_raw-error_trips :
      (cb : CircuitBreaker) (n : ℕ) (u : Text) {e : VaultError}
      → w.circuit_breaker ≡ some cb
      → cb.poisoned ≡ false
      → cb.state ≡ closed n
      → n + 1 < 2 ^ 32
      → cb.config.failure_threshold ≤ n + 1
      → w.token_poisoned ≡ false
      → env.parse_url (c.inner.base_url ++ (codes "v1/" ++ trim_start_matches b'/' path)) ≡ inr u
      → (execute_raw env c method path body w).0 ≡ err e
      → let w' = (execute_raw env c method path body w).1 in
        w'.circuit_breaker ≡ some (record cb { state = opened w'.now })
  execute_raw-error_trips cb n u {e} b q s fits trips p t r =
      IsRecorded-trips cb n e (execute_raw env c method path body w) q s fits trips r
        (execute_raw-IsRecorded cb cb u b (check-closed cb n w.now q s) p t)
