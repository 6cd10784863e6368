-- ===== src/CircuitBreaker/Trips.antt =====
-- When the breaker of circuit_breaker.rs trips, from the history of recorded results alone.
use vault_client_rs.Prelude.{
  ℕ, zero, suc, ◌+◌, ◌-◌, ◌^◌, ◌<◌, max, ◌≡◌, refl, sym, ◌∙◌, ap, false, Option, none, some, List,
  [], ◌∷◌, ◌++◌, arith,
}
use vault_client_rs.CircuitBreaker.{
  CircuitBreakerConfig, CircuitBreaker, State, closed, opened, new, record_success, record_failure,
  fail_state,
}

-- A recorded result: `none` for a success, `some now` for a failure.
abbrev pub Recorded : Type 0
Recorded = Option ℕ

unfoldable pub record_all : CircuitBreaker → List Recorded → CircuitBreaker
unfolding record_success record_failure
record_all b [] = b
record_all b (none ∷ rs) = record_all (record_success b) rs
record_all b (some now ∷ rs) = record_all (record_failure now b) rs

-- The specification: the times of the failures since the last success, oldest first.
unfoldable pub streak : List ℕ → List Recorded → List ℕ
streak ts [] = ts
streak ts (none ∷ rs) = streak [] rs
streak ts (some now ∷ rs) = streak (ts ++ now ∷ []) rs

-- The breaker opens at the failure that makes the streak as long as the threshold, and keeps that
-- time; before it, the breaker is closed with the streak's length.
unfoldable pub from_streak : ℕ → ℕ → List ℕ → State
from_streak n zero ts = closed n
from_streak n (suc k) [] = closed n
from_streak n (suc zero) (t ∷ ts) = opened t
from_streak n (suc (suc k)) (t ∷ ts) = from_streak (suc n) (suc k) ts

from_streak-append :
    (threshold n k : ℕ) (ts : List ℕ) (now : ℕ)
    → threshold < 2 ^ 32
    → n + suc k ≡ max threshold 1
    → fail_state now threshold (from_streak n (suc k) ts) ≡ from_streak n (suc k) (ts ++ now ∷ [])
unfolding fail_state from_streak
from_streak-append threshold n zero [] now fits e = ground arith
from_streak-append threshold n (suc k) [] now fits e = ground arith
from_streak-append threshold n zero (t ∷ ts) now fits e = refl
from_streak-append threshold n (suc k) (t ∷ ts) now fits e =
    from_streak-append threshold (suc n) k ts now fits (omega arith)

from_streak-nil : (k : ℕ) → from_streak 0 (suc k) [] ≡ closed 0
unfolding from_streak
from_streak-nil zero = refl
from_streak-nil (suc k) = refl

module _ (config : CircuitBreakerConfig) (fits : config.failure_threshold < 2 ^ 32) where
  abbrev breaker : State → CircuitBreaker
  breaker s = record { config = config; state = s; poisoned = false }

  abbrev specified : List ℕ → State
  specified = from_streak 0 (suc (config.failure_threshold - 1))

  record_all-from_streak :
      (s : State) (ts : List ℕ) (rs : List Recorded)
      → s ≡ specified ts
      → (record_all (breaker s) rs).state ≡ specified (streak ts rs)
  unfolding record_all streak
  record_all-from_streak s ts [] e = e
  record_all-from_streak s ts (none ∷ rs) e =
      record_all-from_streak (closed 0) [] rs (sym (from_streak-nil _))
  record_all-from_streak s ts (some now ∷ rs) e =
      record_all-from_streak (fail_state now config.failure_threshold s) (ts ++ now ∷ []) rs (
        ap (fail_state now config.failure_threshold) e
        ∙ from_streak-append config.failure_threshold 0 _ ts now fits (omega arith))

-- The state after any results recorded on a new breaker is the one that their last streak of
-- failures specifies: closed with its length below the threshold, and from then on open since the
-- failure that reached it. The threshold is a 32-bit number.
pub record_all-streak :
    (config : CircuitBreakerConfig) (rs : List Recorded)
    → config.failure_threshold < 2 ^ 32
    → (record_all (new config) rs).state
      ≡ from_streak 0 (suc (config.failure_threshold - 1)) (streak [] rs)
unfolding new
record_all-streak config rs fits =
    record_all-from_streak config fits (closed 0) [] rs (sym (from_streak-nil _))
