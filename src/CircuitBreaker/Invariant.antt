-- ===== src/CircuitBreaker/Invariant.antt =====
-- What holds of a circuit breaker between two calls of circuit_breaker.rs.
use vault_client_rs.Prelude.{ℕ, ◌+◌, ◌^◌, ◌<◌, max, ◌≡◌, List, [], ◌∷◌, arith}
use vault_client_rs.CircuitBreaker.{
  CircuitBreakerConfig, CircuitBreaker, State, closed, opened, half_open, new, check,
  record_success, record_failure,
}

-- The calls that a client makes, with the clock's reading.
pub data Call : Type 0 where
  checking : ℕ → Call
  success : Call
  failure : ℕ → Call

unfoldable pub apply : CircuitBreaker → Call → CircuitBreaker
unfolding check record_success record_failure
apply b (checking now) = (check now b).0
apply b success = record_success b
apply b (failure now) = record_failure now b

unfoldable pub run : CircuitBreaker → List Call → CircuitBreaker
run b [] = b
run b (c ∷ cs) = run (apply b c) cs

-- The failures that a closed breaker has counted are fewer than the threshold.
abbrev pub IsBelow : ℕ → State → Type 0
IsBelow threshold (closed failures) = failures < max threshold 1
IsBelow threshold (opened since) = Unit
IsBelow threshold (half_open since) = Unit

pub record IsCounting (config : CircuitBreakerConfig) (b : CircuitBreaker) : Type 0 where
  pub threshold : b.config.failure_threshold ≡ config.failure_threshold
  pub reset : b.config.reset_timeout ≡ config.reset_timeout
  pub below : IsBelow config.failure_threshold b.state

pub apply-IsCounting :
    (config : CircuitBreakerConfig) (b : CircuitBreaker) (c : Call)
    → IsCounting config b
    → IsCounting config (apply b c)
unfolding apply
apply-IsCounting config b (checking now) h = ground arith
apply-IsCounting config b success h = ground arith
apply-IsCounting config b (failure now) h = ground arith

pub run-IsCounting :
    (config : CircuitBreakerConfig) (b : CircuitBreaker) (cs : List Call)
    → IsCounting config b
    → IsCounting config (run b cs)
unfolding run
run-IsCounting config b [] h = h
run-IsCounting config b (c ∷ cs) h =
    run-IsCounting config (apply b c) cs (apply-IsCounting config b c h)

-- From a new breaker, whatever the calls, the configuration stays as given, and a closed breaker has
-- counted fewer failures than its threshold (than one, for a threshold of zero).
pub run-new_bounded :
    (config : CircuitBreakerConfig) (cs : List Call) → IsCounting config (run (new config) cs)
unfolding new
run-new_bounded config cs = run-IsCounting config (new config) cs (ground arith)

-- So the 32-bit counter of a breaker with a 32-bit threshold never wraps.
pub failures_fit :
    (config : CircuitBreakerConfig) (cs : List Call) {n : ℕ}
    → config.failure_threshold < 2 ^ 32
    → (run (new config) cs).state ≡ closed n
    → n + 1 < 2 ^ 32 + 1
failures_fit config cs {n} fits e = ground (arith, (run-new_bounded config cs).below)
