-- ===== src/Retry/Backoff.antt =====
-- The delays of the retry loop in client/async_client.rs.
use vault_client_rs.Prelude.{ℕ, ◌+◌, ◌-◌, ◌*◌, ◌^◌, ◌≤◌, ◌<◌, min, ◌≡◌, unwrap_or, arith}
use vault_client_rs.Prelude.Time.{checked_mul}
use native.Mathlib.Nat.{pow-le-pow_right}
use vault_client_rs.Client.{max_backoff}
use vault_client_rs.Retry.{saturating_pow2, capped, capped_ms}

pub capped-le : (initial attempt : ℕ) → capped initial attempt ≤ max_backoff
unfolding capped
capped-le initial attempt = ground arith

-- The bound of the random delay is at least 1, so the range is never empty, and at most 30000.
pub capped_ms_range :
    (initial attempt : ℕ) → (1 ≤ capped_ms initial attempt) × (capped_ms initial attempt ≤ 30000)
unfolding capped_ms
capped_ms_range initial attempt = ground (arith, capped-le initial attempt)

-- The cap for a given multiplier of the initial delay.
abbrev saturated : ℕ → ℕ → ℕ
saturated initial k = min (unwrap_or (checked_mul initial k) max_backoff) max_backoff

pow2_mono : (a b : ℕ) → a ≤ b → 2 ^ a ≤ 2 ^ b
pow2_mono a b h = pow-le-pow_right (omega arith) h

saturating_pow2_mono : (a b : ℕ) → a ≤ b → saturating_pow2 a ≤ saturating_pow2 b
unfolding saturating_pow2
saturating_pow2_mono a b h = omega (arith, pow2_mono a b h)

-- While the power fits 32 bits, the cap before the n-th retry is the initial delay doubled as often,
-- cut at 30 s.
pub capped-doubles :
    (initial n : ℕ) → n < 32 → capped initial (n + 1) ≡ min (initial * 2 ^ n) max_backoff
unfolding capped
capped-doubles initial n h =
    let e : n + 1 - 1 ≡ n = omega arith in rw e (ground (arith, pow2_mono n 31 (omega arith)))

mul_mono : (m x y : ℕ) → x ≤ y → m * x ≤ m * y
mul_mono m x y h = grind arith

capped_mono_of :
    (initial x y : ℕ) → initial * x ≤ initial * y → saturated initial x ≤ saturated initial y
unfolding checked_mul
capped_mono_of initial x y h = ground arith

-- The cap never shrinks from one retry to a later one.
pub capped_mono : (initial a b : ℕ) → a ≤ b → capped initial a ≤ capped initial b
unfolding capped
capped_mono initial a b h =
    capped_mono_of initial (saturating_pow2 (a - 1)) (saturating_pow2 (b - 1)) (
      mul_mono initial (saturating_pow2 (a - 1)) (saturating_pow2 (b - 1))
        (saturating_pow2_mono (a - 1) (b - 1) (omega arith)))
