-- ===== src/Prelude/Time.antt =====
-- `std::time`: durations and instants as nanoseconds.
use Prim.Native.Nat.{ℕ, ◌+◌, ◌-◌, ◌*◌, ◌/◌, ◌^◌}
use mathlib.Core.Option.{Option, none, some}
use vault_client_rs.Prelude.Tests.{ltb, if◌then◌else◌}

-- `Duration::from_secs`, `Duration::from_millis`, `Duration::as_millis`.
abbrev pub from_secs : ℕ → ℕ
from_secs s = s * 1000000000

abbrev pub from_millis : ℕ → ℕ
from_millis m = m * 1000000

abbrev pub as_millis : ℕ → ℕ
as_millis d = d / 1000000

-- A `Duration` has at most u64::MAX whole seconds: `checked_mul` by an integer.
unfoldable pub checked_mul : ℕ → ℕ → Option ℕ
checked_mul d k = if ltb (d * k) (from_secs (2 ^ 64)) then some (d * k) else none

-- An `Instant` has at most i64::MAX whole seconds: `checked_add` of a duration.
unfoldable pub checked_add : ℕ → ℕ → Option ℕ
checked_add t d = if ltb (t + d) (from_secs (2 ^ 63)) then some (t + d) else none

-- `since.elapsed()` is zero for an instant that is not yet reached.
abbrev pub elapsed : ℕ → ℕ → ℕ
elapsed now since = now - since
