-- ===== src/Token/Freshness.antt =====
-- When client/async_client.rs takes a token to need renewal.
use vault_client_rs.Prelude.{ℕ, ◌+◌, ◌*◌, ◌^◌, ◌≤◌, ◌<◌, ◌≡◌, true, false, arith}
use vault_client_rs.Prelude.Time.{from_secs, checked_add}
use vault_client_rs.VaultResponse.{AuthInfo}
use vault_client_rs.Effect.{Env}
use vault_client_rs.Token.{token_of, token_needs_renewal}

-- `mul_f64` by hundredths is exact up to 1/100000 and to a whole nanosecond: the rounding of a 64-bit
-- float is far below.
pub record IsRounded (mul_f64 : ℕ → ℕ → ℕ) : Type 0 where
  pub above : (c d : ℕ) → 100000 * mul_f64 c d ≤ 1000 * (c * d) + d + 100000
  pub below : (c d : ℕ) → 1000 * (c * d) ≤ 100000 * mul_f64 c d + d + 100000

-- A token stored from a login or a renewal at `now`, with a lease of at least a second that fits the
-- clock, is left alone before 79.999% of its lease is over, up to one nanosecond, for a `mul_f64` that
-- rounds as said above.
pub token_of-fresh :
    (env : Env)
    → IsRounded env.mul_f64
    → (now t : ℕ) (auth : AuthInfo) → 0 < auth.lease_duration
    → now + from_secs auth.lease_duration < from_secs (2 ^ 63)
    → 100000 * t + 100000 < 79999 * from_secs auth.lease_duration
    → token_needs_renewal env (now + t) (token_of now auth) ≡ false
unfolding token_of token_needs_renewal checked_add
token_of-fresh env r now t auth pos fits early =
    let lease = from_secs auth.lease_duration in ground (arith, r.above 20 lease)

-- A token stored from a login or a renewal at `now`, with a lease of at least a second that fits the
-- clock, is due for renewal from 80.001% of its lease on, up to one nanosecond, for a `mul_f64` that
-- rounds as said above.
pub token_of-due :
    (env : Env)
    → IsRounded env.mul_f64
    → (now t : ℕ) (auth : AuthInfo) → 0 < auth.lease_duration
    → now + from_secs auth.lease_duration < from_secs (2 ^ 63)
    → 80001 * from_secs auth.lease_duration + 100000 ≤ 100000 * t
    → token_needs_renewal env (now + t) (token_of now auth) ≡ true
unfolding token_of token_needs_renewal checked_add
token_of-due env r now t auth pos fits late =
    let lease = from_secs auth.lease_duration in ground (arith, r.below 20 lease)
