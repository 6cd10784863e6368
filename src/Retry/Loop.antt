-- ===== src/Retry/Loop.antt =====
-- The retry loop of client/async_client.rs as a whole: it ends, sends boundedly often, and gives up on
-- a retryable error only when its retries are used up.
use vault_client_rs.Prelude.{
  ℕ, zero, suc, ◌+◌, ◌-◌, ◌≤◌, ◌<◌, ◌≡◌, refl, ap, Bool, false, Option, none, some, ◌⊎◌, inl, inr,
  ◌∷◌, length, arith,
}
use vault_client_rs.Prelude.Text.{Text}
use vault_client_rs.VaultError.{ReqwestError, is_retryable, status_code}
use vault_client_rs.Client.{ClientConfig}
use vault_client_rs.Effect.{Env, Request, Response, World, Exit, ok, err, panicked, send}
use vault_client_rs.Retry.{
  Next, stop, again, back_off, on_outcome, send_clone, after_round, rounds, send_with_retry,
}
use vault_client_rs.Retry.Backoff.{capped_ms_range}
use vault_client_rs.Retry.Statuses.{IsSuccess, IsExhausted, IsVerdict, on_response-IsVerdict}

-- What a round may end with.
abbrev IsRound : ClientConfig → ℕ → Next → Type 0
IsRound c attempt (stop (ok resp)) = IsSuccess resp.status
IsRound c attempt (stop (err e)) = (is_retryable e ≡ false) ⊎ IsExhausted c attempt e
IsRound c attempt (stop panicked) = ⊥
IsRound c attempt (again skip) = attempt < c.max_retries

-- A round that ends the loop with an error that is not retryable.
abbrev IsRefusal : Next → Type 0
IsRefusal (stop (err e)) = is_retryable e ≡ false
IsRefusal _ = ⊥

-- How the loop may end, of which `base` requests were sent before it.
abbrev pub Ends : ClientConfig → ℕ → Exit Response → Type 0
Ends c sends (ok resp) = IsSuccess resp.status
Ends c sends (err e) =
    (is_retryable e ≡ false)
    ⊎ (sends ≡ c.max_retries + 1)
    ⊎ ((status_code e ≡ some 503) × (c.retry_on_sealed ≡ false))
Ends c sends panicked = ⊥

abbrev IsFinal : ClientConfig → ℕ → Exit Response × World → Type 0
IsFinal c base (r, w) =
    (base ≤ length w.sent)
    × (length w.sent ≤ base + c.max_retries + 1)
    × Ends c (length w.sent - base) r

IsVerdict-IsRound :
    (c : ClientConfig) (attempt status : ℕ) (n : Next)
    → IsVerdict c attempt status n
    → IsRound c attempt n
IsVerdict-IsRound c attempt status (stop (ok resp)) h = rw h.0 h.1
IsVerdict-IsRound c attempt status (stop (err e)) h = h.2
IsVerdict-IsRound c attempt status (stop panicked) h = h
IsVerdict-IsRound c attempt status (again skip) h = h.0

module _ (env : Env) (c : ClientConfig) (url : Text) where
  on_outcome-IsRound :
      (attempt : ℕ) (o : ReqwestError ⊎ Response) (w : World)
      → IsRound c attempt (on_outcome env c url attempt o w).0
  unfolding on_outcome is_retryable
  on_outcome-IsRound attempt (inl e) w = ground arith
  on_outcome-IsRound attempt (inr resp) w =
      IsVerdict-IsRound c attempt resp.status _ (on_response-IsVerdict env c url attempt resp w)

  pub sent-on_outcome :
      (attempt : ℕ) (o : ReqwestError ⊎ Response) (w : World)
      → (on_outcome env c url attempt o w).1.sent ≡ w.sent
  unfolding on_outcome
  sent-on_outcome attempt (inl e) w = refl
  sent-on_outcome attempt (inr resp) w = ground arith

  -- The random range is never empty, so waiting does not panic; nothing is sent.
  pub back_off_returns :
      (attempt : ℕ) (skip : Bool) (w : World)
      → ((back_off env c attempt skip w).0 ≡ ok tt)
        × ((back_off env c attempt skip w).1.sent ≡ w.sent)
  unfolding back_off
  back_off_returns attempt skip w = ground (arith, capped_ms_range c.initial_retry_delay attempt)

  -- A round sends one request, or none if the request cannot be cloned, and then it ends the loop
  -- with an error that is not retryable.
  abbrev Sends : ℕ → World → Next × World → Type 0
  Sends attempt w (n, w') =
      IsRound c attempt n
      × ((length w'.sent ≡ length w.sent + 1) ⊎ ((length w'.sent ≡ length w.sent) × IsRefusal n))

  send_clone-Sends :
      (attempt : ℕ) (o : Option Request) (w : World)
      → Sends attempt w (send_clone env c url attempt o w)
  unfolding send_clone send is_retryable
  send_clone-Sends attempt none w = (inl refl, inr (refl, refl))
  send_clone-Sends attempt (some r) w =
      let o = env.send (length w.sent) r in
      let w' = record w { now = w.now + env.latency (length w.sent); sent = r ∷ w.sent } in
      (
        on_outcome-IsRound attempt o w',
        inl (omega (arith, ap (length {A = Request}) (sent-on_outcome attempt o w'))),
      )

  after_round-IsFinal :
      (attempt base : ℕ) (n : Next) (w w' : World) (more : Bool → World → Exit Response × World)
      → attempt < c.max_retries + 1
      → length w.sent ≡ base + attempt
      → Sends attempt w (n, w')
      → ((skip : Bool)
          → length w'.sent ≡ base + (attempt + 1)
          → attempt < c.max_retries
          → IsFinal c base (more skip w'))
      → IsFinal c base (after_round n w' more)
  unfolding after_round
  after_round-IsFinal attempt base (stop (ok resp)) w w' more le s h k = ground arith
  after_round-IsFinal attempt base (stop (err e)) w w' more le s h k = ground arith
  after_round-IsFinal attempt base (stop panicked) w w' more le s h k = absurd h.0
  after_round-IsFinal attempt base (again skip) w w' more le s h k = k skip (ground arith) h.0

  -- The rounds from an attempt on, with as many left as the configuration allows.
  rounds-IsFinal :
      (req : Request) (left attempt base : ℕ) (skip : Bool) (w : World)
      → attempt + left ≡ c.max_retries + 1
      → attempt < c.max_retries + 1
      → length w.sent ≡ base + attempt
      → IsFinal c base (rounds env c url req left attempt skip w)
  unfolding rounds
  rounds-IsFinal req zero attempt base skip w e lt s = absurd (omega arith)
  rounds-IsFinal req (suc left) attempt base skip w e lt s =
      let (waits, same) = back_off_returns attempt skip w in
      let w' = (back_off env c attempt skip w).1 in
      rw waits (
        after_round-IsFinal attempt base _ w' _ _ lt (rw same s)
          (send_clone-Sends attempt (env.try_clone req) w')
          (λ skip' s' lt'.
            rounds-IsFinal req left (attempt + 1) base skip' _ (omega arith) (omega arith) s'))

-- Whatever the server and the network do, the loop ends: it never reaches its `unreachable!`, sends
-- at most one request more than `max_retries`, returns a response only with a status of 2xx or 404,
-- and gives up on a retryable error only after that many requests, or on a sealed vault (503) where
-- those are not retried.
pub send_with_retry-Ends :
    (env : Env) (c : ClientConfig) (url : Text) (req : Request) (w : World)
    → let (r, w') = send_with_retry env c url req w in
      (length w.sent ≤ length w'.sent)
      × (length w'.sent ≤ length w.sent + c.max_retries + 1)
      × Ends c (length w'.sent - length w.sent) r
unfolding send_with_retry
send_with_retry-Ends env c url req w =
    rounds-IsFinal env c url req (c.max_retries + 1) 0 (length w.sent) false w (omega arith)
      (omega arith) (omega arith)
