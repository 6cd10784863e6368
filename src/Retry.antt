-- ===== src/Retry.antt =====
-- `send_with_retry` of client/async_client.rs: the retry loop, its backoff, and what it makes of each
-- status.
pub mod Backoff
pub mod Statuses
pub mod Loop
pub mod Frame
use vault_client_rs.Prelude.{
  ℕ, zero, suc, ◌+◌, ◌-◌, ◌^◌, min, max, Bool, true, false, not, ◌&&◌, ◌||◌, Option, none, some,
  ◌⊎◌, inl, inr, ltb, leb, ◌==◌, if◌then◌else◌, unwrap_or,
}
use vault_client_rs.Prelude.Text.{Text, codes, parse_u64}
use vault_client_rs.Prelude.Time.{from_secs, from_millis, as_millis, checked_mul}
use vault_client_rs.VaultError.{
  VaultError, ReqwestError, http, api, sealed, permission_denied, rate_limited, consistency_retry,
  auth_required, config, is_retryable,
}
use vault_client_rs.Client.{ClientConfig, max_backoff}
use vault_client_rs.Effect.{
  Env, Request, Response, World, Exit, ok, err, panicked, M, continue, pure, ◌>>=◌, ◌>>◌, sleep,
  random_range, send, extract_errors,
}

-- `2u32.saturating_pow(n)`.
unfoldable pub saturating_pow2 : ℕ → ℕ
saturating_pow2 n = min (2 ^ n) (2 ^ 32 - 1)

-- `capped`, before the given attempt.
unfoldable pub capped : ℕ → ℕ → ℕ
unfolding saturating_pow2 checked_mul
capped initial attempt =
    min (unwrap_or (checked_mul initial (saturating_pow2 (attempt - 1))) max_backoff) max_backoff

-- `u64::try_from(…).unwrap_or(u64::MAX).max(1)`.
unfoldable pub capped_ms : ℕ → ℕ → ℕ
unfolding capped
capped_ms initial attempt =
    let ms = as_millis (capped initial attempt) in
    max (if ltb ms (2 ^ 64) then ms else 2 ^ 64 - 1) 1

-- The random sleep before a retry.
unfoldable pub back_off : Env → ClientConfig → ℕ → Bool → M (Unit {0})
unfolding capped_ms random_range sleep
back_off env c attempt skip_backoff =
    if ltb 0 attempt && not skip_backoff
    then (do
      delay ← random_range env (capped_ms c.initial_retry_delay attempt)
      sleep (from_millis delay))
    else pure tt

-- How a round of the loop ends: by a `return`, or by a `continue` with `skip_backoff` as given.
pub data Next : Type 0 where
  stop : Exit Response → Next
  again : Bool → Next

-- The arm for 429.
on_rate_limited : ClientConfig → ℕ → Option ℕ → World → Next × World
unfolding sleep
on_rate_limited c attempt retry_after w =
    if leb c.max_retries attempt
    then (stop (err (rate_limited retry_after)), w)
    else elim retry_after [
      | none ↦ (again false, w)
      | some secs ↦ (again true, (sleep (min (from_secs secs) max_backoff) w).1)
    ]

parse_header : Option Text → Option ℕ
unfolding parse_u64
parse_header none = none
parse_header (some v) = parse_u64 v

-- The arm for every other status.
on_other : ClientConfig → ℕ → VaultError → Next
on_other c attempt error =
    if is_retryable error && ltb attempt c.max_retries then again false else stop (err error)

-- `match status`.
unfoldable pub on_response : Env → ClientConfig → Text → ℕ → Response → World → Next × World
unfolding on_rate_limited parse_header on_other
on_response env c url attempt resp w =
    let status = resp.status in
    if (leb 200 status && leb status 299) || status == 404
    then (stop (ok resp), w)
    else if status == 401
    then (stop (err auth_required), w)
    else if status == 403
    then (stop (err (permission_denied (extract_errors env resp))), w)
    else if status == 429
    then on_rate_limited c attempt (parse_header resp.retry_after) w
    else if status == 412
    then ((if leb c.max_retries attempt then stop (err consistency_retry) else again false), w)
    else if status == 503
    then (
      (if leb c.max_retries attempt || not c.retry_on_sealed
          then stop (err (sealed url))
          else again false),
      w,
    )
    else (on_other c attempt (api status (extract_errors env resp)), w)

unfoldable pub on_outcome :
    Env → ClientConfig → Text → ℕ → ReqwestError ⊎ Response → World → Next × World
unfolding on_response
on_outcome env c url attempt (inr resp) w = on_response env c url attempt resp w
on_outcome env c url attempt (inl e) w = (
  (if (e.is_timeout || e.is_connect) && ltb attempt c.max_retries
      then again false
      else stop (err (http e))),
  w,
)

-- The request cloned, if it can be, sent, and its outcome looked at.
unfoldable pub send_clone : Env → ClientConfig → Text → ℕ → Option Request → World → Next × World
unfolding send on_outcome
send_clone env c url attempt none w =
    (stop (err (config (codes "request body not cloneable (stream body?)"))), w)
send_clone env c url attempt (some req) w =
    let (outcome, w') = send env req w in on_outcome env c url attempt outcome w'

-- One round after its backoff.
unfoldable pub try_once : Env → ClientConfig → Text → Request → ℕ → World → Next × World
unfolding send_clone
try_once env c url req attempt w = send_clone env c url attempt (env.try_clone req) w

-- The end of a round: leave the loop, or go on.
unfoldable pub after_round : Next → World → (Bool → M Response) → Exit Response × World
after_round (stop r) w more = (r, w)
after_round (again skip) w more = more skip w

-- The rounds that are left. The `unreachable!` below the loop is a panic.
unfoldable pub rounds : Env → ClientConfig → Text → Request → ℕ → ℕ → Bool → M Response
unfolding after_round back_off try_once
rounds env c url req zero attempt skip_backoff w = (panicked, w)
rounds env c url req (suc left) attempt skip_backoff w =
    let (waited, w') = back_off env c attempt skip_backoff w in
    let (next, w'') = try_once env c url req attempt w' in
    continue waited (λ _ _. after_round next w'' (rounds env c url req left (attempt + 1))) w'

-- `for attempt in 0..=max`.
unfoldable pub send_with_retry : Env → ClientConfig → Text → Request → M Response
unfolding rounds
send_with_retry env c url req = rounds env c url req (c.max_retries + 1) 0 false
