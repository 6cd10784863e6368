-- ===== src/Renewal/Sleeps.antt =====
-- How long the tasks of renewal.rs sleep between renewals.
use vault_client_rs.Prelude.{
  ℕ, ◌+◌, ◌*◌, ◌%◌, ◌≤◌, ◌<◌, ◌≡◌, Bool, true, false, some, List, [], ◌∷◌, All, arith,
}
use vault_client_rs.Prelude.Text.{Text}
use vault_client_rs.Prelude.Time.{from_secs}
use vault_client_rs.Effect.{Env, TokenState}
use vault_client_rs.Token.Freshness.{IsRounded}
use vault_client_rs.Renewal.{
  min_renewal_sleep, lease_sleep, token_sleep, Round, Trace, watch_lease, watch_lease_events,
  watch_lease_rotate, granted, refused, dropped, rotate, log_answer, send_answer, rotate_answer,
  Answer, Attempt, Rotated, success, exhausted, cancelled,
}

module _ (env : Env) (r : IsRounded env.mul_f64) where
  -- With a lease of 15 seconds or more, the lease watchers and, for a renewable token, the token
  -- daemon sleep for less than the whole lease duration, whatever the random number, for a `mul_f64`
  -- that rounds as Token.Freshness says. So a sleep that begins with the lease is over before it.
  pub sleep-lt-lease :
      (secs random : ℕ) (ts : TokenState)
      → 15 ≤ secs
      → ts.renewable ≡ true
      → ts.lease_duration ≡ from_secs secs
      → (lease_sleep env (from_secs secs) random < from_secs secs)
        × (token_sleep env (some ts) random < from_secs secs)
  unfolding lease_sleep token_sleep
  sleep-lt-lease secs random ts h n e = ground (arith, r.above 66 (from_secs secs))

  -- With a lease of 1 to 14 seconds, the lease watchers and, for a renewable token, the token daemon
  -- wake up only when it is over, if the random jitter is at its largest: the jitter does not shrink
  -- with the lease. The `mul_f64` rounds as Token.Freshness says.
  pub sleep_may_miss :
      (secs random : ℕ) (ts : TokenState)
      → 0 < secs
      → secs ≤ 14
      → random % 5000 ≡ 4999
      → ts.renewable ≡ true
      → ts.lease_duration ≡ from_secs secs
      → (from_secs secs ≤ lease_sleep env (from_secs secs) random)
        × (from_secs secs ≤ token_sleep env (some ts) random)
  unfolding lease_sleep token_sleep
  sleep_may_miss secs random ts pos h j n e = ground (arith, r.below 66 (from_secs secs))

  -- A renewable token with a lease of 15 seconds or more of which 65 hundredths at most are left is not
  -- renewed in time by the token daemon: the sleep that begins now is no shorter than what is left,
  -- whatever the random number, since it depends on the whole lease duration and not on `expires_at`.
  -- The `mul_f64` rounds as Token.Freshness says.
  pub token_sleep_misses :
      (secs random now exp : ℕ) (ts : TokenState)
      → 15 ≤ secs
      → ts.renewable ≡ true
      → ts.lease_duration ≡ from_secs secs
      → ts.expires_at ≡ some exp
      → 100 * exp ≤ 100 * now + 65 * from_secs secs
      → exp ≤ now + token_sleep env (some ts) random
  unfolding token_sleep
  token_sleep_misses secs random now exp ts h n e x late =
      ground (arith, r.below 66 (from_secs secs))

-- A watcher never polls: each of its sleeps is a second at least.
abbrev pub IsLong : Trace → Type 0
IsLong t = All (λ d. min_renewal_sleep ≤ d) t.slept

lease_sleep-ge : (env : Env) (ttl random : ℕ) → min_renewal_sleep ≤ lease_sleep env ttl random
unfolding lease_sleep
lease_sleep-ge env ttl random = omega arith

module _ (env : Env) where
  log_answer-IsLong :
      (b : Bool) (a : Answer) (more : ℕ → Trace)
      → ((ttl : ℕ) → IsLong (more ttl))
      → IsLong (log_answer b a more)
  unfolding log_answer
  log_answer-IsLong true a more h = tt
  log_answer-IsLong false (granted secs) more h = h (from_secs secs)
  log_answer-IsLong false (refused e) more h = tt
  log_answer-IsLong false dropped more h = tt

  watch_lease-IsLong : (ttl : ℕ) (rs : List Round) → IsLong (watch_lease env ttl rs)
  unfolding watch_lease
  watch_lease-IsLong ttl [] = tt
  watch_lease-IsLong ttl (r ∷ rs) = (
    lease_sleep-ge env ttl r.random,
    log_answer-IsLong r.cancelled r.answer _ (λ ttl'. watch_lease-IsLong ttl' rs),
  )

  send_answer-IsLong :
      (b : Bool) (a : Answer) (lease : Text) (more : ℕ → Trace)
      → ((ttl : ℕ) → IsLong (more ttl))
      → IsLong (send_answer b a lease more)
  unfolding send_answer
  send_answer-IsLong true a lease more h = tt
  send_answer-IsLong false (granted secs) lease more h = h (from_secs secs)
  send_answer-IsLong false (refused e) lease more h = tt
  send_answer-IsLong false dropped lease more h = tt

  watch_lease_events-IsLong :
      (lease : Text) (ttl : ℕ) (rs : List Round) → IsLong (watch_lease_events env lease ttl rs)
  unfolding watch_lease_events
  watch_lease_events-IsLong lease ttl [] = tt
  watch_lease_events-IsLong lease ttl (r ∷ rs) = (
    lease_sleep-ge env ttl r.random,
    send_answer-IsLong r.cancelled r.answer lease _
        (λ ttl'. watch_lease_events-IsLong lease ttl' rs),
  )

  rotate_answer-IsLong :
      (b : Bool) (a : Answer) (r : Rotated) (lease : Text) (more : Text → ℕ → Trace)
      → ((lease' : Text) (ttl : ℕ) → IsLong (more lease' ttl))
      → IsLong (rotate_answer b a r lease more)
  unfolding rotate_answer
  rotate_answer-IsLong true a r lease more h = tt
  rotate_answer-IsLong false (granted secs) r lease more h = h lease (from_secs secs)
  rotate_answer-IsLong false (refused e) (success l t) lease more h = h l t
  rotate_answer-IsLong false (refused e) exhausted lease more h = tt
  rotate_answer-IsLong false (refused e) cancelled lease more h = tt
  rotate_answer-IsLong false dropped r lease more h = tt

  watch_lease_rotate-IsLong :
      (lease : Text) (ttl : ℕ) (rs : List (Round × (ℕ → Attempt)))
      → IsLong (watch_lease_rotate env lease ttl rs)
  unfolding watch_lease_rotate
  watch_lease_rotate-IsLong lease ttl [] = tt
  watch_lease_rotate-IsLong lease ttl ((r, attempts) ∷ rs) = (
    lease_sleep-ge env ttl r.random,
    rotate_answer-IsLong r.cancelled r.answer (rotate attempts).result lease _
        (λ lease' ttl'. watch_lease_rotate-IsLong lease' ttl' rs),
  )

  -- No lease watcher polls: whatever the answers and the lease durations in them, zero included, each
  -- of its sleeps is a second at least.
  pub watchers_sleep :
      (lease : Text) (ttl : ℕ) (rs : List Round) (rots : List (Round × (ℕ → Attempt)))
      → IsLong (watch_lease env ttl rs)
        × IsLong (watch_lease_events env lease ttl rs)
        × IsLong (watch_lease_rotate env lease ttl rots)
  watchers_sleep lease ttl rs rots = (
    watch_lease-IsLong ttl rs,
    watch_lease_events-IsLong lease ttl rs,
    watch_lease_rotate-IsLong lease ttl rots,
  )
