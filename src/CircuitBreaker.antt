-- ===== src/CircuitBreaker.antt =====
-- circuit_breaker.rs: the client-side circuit breaker. A method takes the clock's reading (where the
-- source calls `Instant::now`) and returns the new breaker.
pub mod Invariant
pub mod Trips
pub mod Windows
use vault_client_rs.Prelude.{ℕ, ◌+◌, ◌%◌, ◌^◌, Bool, false, leb, if◌then◌else◌, Option, none, some}
use vault_client_rs.Prelude.Time.{from_secs, elapsed}
use vault_client_rs.VaultError.{VaultError, lock_poisoned, circuit_open}

pub record CircuitBreakerConfig : Type 0 where
  pub failure_threshold : ℕ  -- u32
  pub reset_timeout : ℕ

abbrev pub default : CircuitBreakerConfig
default = record { failure_threshold = 5; reset_timeout = from_secs 30 }

pub data State : Type 0 where
  closed : ℕ → State  -- consecutive_failures, u32
  opened : ℕ → State  -- since
  half_open : ℕ → State  -- since

-- `poisoned` is the state of the mutex.
pub record CircuitBreaker : Type 0 where
  pub config : CircuitBreakerConfig
  pub state : State
  pub poisoned : Bool

unfoldable pub new : CircuitBreakerConfig → CircuitBreaker
new config = record { config = config; state = closed 0; poisoned = false }

-- `Result<(), VaultError>`, `none` for `Ok(())`.
abbrev pub Verdict : Type 0
Verdict = Option VaultError

-- The arms for `Open` and `HalfOpen`, which are the same code.
probe : ℕ → ℕ → State → ℕ → State × Verdict
probe now reset state since =
    if leb reset (elapsed now since) then (half_open now, none) else (state, some circuit_open)

check_state : ℕ → ℕ → State → State × Verdict
unfolding probe
check_state now reset (closed failures) = (closed failures, none)
check_state now reset (opened since) = probe now reset (opened since) since
check_state now reset (half_open since) = probe now reset (half_open since) since

unfoldable pub check : ℕ → CircuitBreaker → CircuitBreaker × Verdict
unfolding check_state
check now b =
    let (state, verdict) = check_state now b.config.reset_timeout b.state in
    if b.poisoned then (b, some lock_poisoned) else (record b { state = state }, verdict)

unfoldable pub record_success : CircuitBreaker → CircuitBreaker
record_success b = if b.poisoned then b else record b { state = closed 0 }

-- `consecutive_failures + 1` wraps at 32 bits.
fail_state : ℕ → ℕ → State → State
fail_state now threshold (closed failures) =
    let new_count = (failures + 1) % 2 ^ 32 in
    if leb threshold new_count then opened now else closed new_count
fail_state now threshold (half_open since) = opened now
fail_state now threshold (opened since) = opened since

unfoldable pub record_failure : ℕ → CircuitBreaker → CircuitBreaker
unfolding fail_state
record_failure now b =
    if b.poisoned then b else record b { state = fail_state now b.config.failure_threshold b.state }
