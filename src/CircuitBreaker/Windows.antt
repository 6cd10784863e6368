-- ===== src/CircuitBreaker/Windows.antt =====
-- How long the breaker of circuit_breaker.rs keeps requests away, and how it lets them through again.
use vault_client_rs.Prelude.{
  ℕ, ◌+◌, ◌≤◌, ◌<◌, ◌≡◌, ◌⊎◌, inl, inr, refl, true, false, Option, none, some, List, [], ◌∷◌, All,
  if◌then◌else◌, is_some, arith,
}
use vault_client_rs.CircuitBreaker.{
  CircuitBreaker, State, closed, opened, half_open, check, record_success, record_failure,
}
use vault_client_rs.CircuitBreaker.Invariant.{Call, checking, success, failure, apply, run}
use vault_client_rs.VaultError.{circuit_open}

-- From `since` on and before `limit`, a request that asks, or one under way that fails.
abbrev pub Between : ℕ → ℕ → Call → Type 0
Between since limit (checking now) = (since ≤ now) × (now < limit)
Between since limit success = ⊥
Between since limit (failure now) = Unit

open_unchanged :
    (since : ℕ) (b : CircuitBreaker) (c : Call)
    → b.state ≡ opened since
    → Between since (since + b.config.reset_timeout) c
    → apply b c ≡ b
unfolding apply
open_unchanged since b (checking now) o h = ground arith
open_unchanged since b success o h = absurd h
open_unchanged since b (failure now) o h = ground arith

open_window :
    (since : ℕ) (b : CircuitBreaker) (cs : List Call)
    → b.state ≡ opened since
    → All (Between since (since + b.config.reset_timeout)) cs
    → run b cs ≡ b
unfolding run
open_window since b [] o h = refl
open_window since b (c ∷ cs) o h =
    rw (open_unchanged since b c o h.0) (open_window since b cs o h.1)

-- An open breaker with a healthy lock refuses every request before its reset timeout has passed,
-- whatever checks and late failures came before in that time, and is left as it was.
pub check-open_refuses :
    (since now : ℕ) (b : CircuitBreaker) (cs : List Call)
    → b.poisoned ≡ false
    → b.state ≡ opened since
    → All (Between since (since + b.config.reset_timeout)) cs
    → since ≤ now
    → now < since + b.config.reset_timeout
    → check now (run b cs) ≡ (b, some circuit_open)
unfolding check
check-open_refuses since now b cs p o h ge lt = rw (open_window since b cs o h) (ground arith)

-- The times at which a request is let through, over a history of calls.
unfoldable pub admitted : CircuitBreaker → List Call → List ℕ
admitted b [] = []
admitted b (checking now ∷ cs) =
    let rest = admitted (apply b (checking now)) cs in
    if is_some (check now b).1 then rest else now ∷ rest
admitted b (success ∷ cs) = admitted (apply b success) cs
admitted b (failure now ∷ cs) = admitted (apply b (failure now)) cs

-- No success, and a clock that does not go back.
abbrev pub Failing : ℕ → List Call → Type 0
Failing t [] = Unit
Failing t (checking now ∷ cs) = (t ≤ now) × Failing now cs
Failing t (success ∷ cs) = ⊥
Failing t (failure now ∷ cs) = (t ≤ now) × Failing now cs

-- Each time is at least `gap` after the one before it, and the first after `last`.
abbrev pub IsSpaced : ℕ → ℕ → List ℕ → Type 0
IsSpaced gap last [] = Unit
IsSpaced gap last (t ∷ ts) = (last + gap ≤ t) × IsSpaced gap t ts

abbrev pub since_of : State → Option ℕ
since_of (closed failures) = none
since_of (opened since) = some since
since_of (half_open since) = some since

Failing-weaken : (s t : ℕ) (cs : List Call) → s ≤ t → Failing t cs → Failing s cs
Failing-weaken s t [] le h = tt
Failing-weaken s t (checking now ∷ cs) le h = (omega arith, h.1)
Failing-weaken s t (success ∷ cs) le h = absurd h
Failing-weaken s t (failure now ∷ cs) le h = (omega arith, h.1)

-- A breaker that is not closed, and what it waits for.
record IsWaiting (gap since : ℕ) (b : CircuitBreaker) : Type 0 where
  reset : b.config.reset_timeout ≡ gap
  healthy : b.poisoned ≡ false
  waits : since_of b.state ≡ some since

check-IsWaiting :
    (gap since now : ℕ) (b : CircuitBreaker)
    → 0 < gap
    → IsWaiting gap since b
    → ((is_some (check now b).1 ≡ true) × IsWaiting gap since (apply b (checking now)))
      ⊎ ((is_some (check now b).1 ≡ false)
          × (since + gap ≤ now)
          × IsWaiting gap now (apply b (checking now)))
unfolding apply
check-IsWaiting gap since now b pos h = ground arith

-- What a breaker that is not closed waits for after a failure.
abbrev since_failure : ℕ → ℕ → State → ℕ
since_failure now since (half_open t) = now
since_failure now since _ = since

failure-IsWaiting :
    (gap since now : ℕ) (b : CircuitBreaker)
    → IsWaiting gap since b
    → since ≤ now
    → (since ≤ since_failure now since b.state)
      × (since_failure now since b.state ≤ now)
      × IsWaiting gap (since_failure now since b.state) (apply b (failure now))
unfolding apply
failure-IsWaiting gap since now b h le = ground arith

admitted-IsSpaced :
    (gap last since : ℕ) (b : CircuitBreaker) (cs : List Call)
    → 0 < gap
    → IsWaiting gap since b
    → last ≤ since
    → Failing since cs
    → IsSpaced gap last (admitted b cs)
unfolding admitted
admitted-IsSpaced gap last since b [] pos w le h = tt
admitted-IsSpaced gap last since b (checking now ∷ cs) pos w le h =
    elim (check-IsWaiting gap since now b pos w) [
      | inl (refused, w') ↦ rw refused (
          admitted-IsSpaced gap last since (apply b (checking now)) cs pos w' le
            (Failing-weaken since now cs h.0 h.1))
      | inr (passed, late, w') ↦ rw passed (
        omega arith,
        admitted-IsSpaced gap now now (apply b (checking now)) cs pos w' (omega arith) h.1,
      )
    ]
admitted-IsSpaced gap last since b (success ∷ cs) pos w le h = absurd h
admitted-IsSpaced gap last since b (failure now ∷ cs) pos w le h =
    let (ge, early, w') = failure-IsWaiting gap since now b w h.0 in
    let later = since_failure now since b.state in
    admitted-IsSpaced gap last later (apply b (failure now)) cs pos w' (omega arith)
      (Failing-weaken later now cs early h.1)

-- While no success is recorded, a breaker that is open or half-open lets requests through at most
-- once in each reset timeout, counted from the time that it waits on, whatever the calls, for a
-- positive reset timeout, a healthy lock and a clock that does not go back.
pub probes-IsSpaced :
    (since : ℕ) (b : CircuitBreaker) (cs : List Call)
    → 0 < b.config.reset_timeout
    → b.poisoned ≡ false
    → since_of b.state ≡ some since
    → Failing since cs
    → IsSpaced b.config.reset_timeout since (admitted b cs)
probes-IsSpaced since b cs pos p s h =
    admitted-IsSpaced b.config.reset_timeout since since b cs pos
      (record { reset = refl; healthy = p; waits = s }) (omega arith) h

-- A probe that is let through and never reports does not block a breaker with a healthy lock: once the
-- reset timeout has passed since, the next request is let through; if it succeeds the breaker is closed, and if it
-- fails the breaker is open from the time of that failure.
pub probe_recovers :
    (since now later : ℕ) (b : CircuitBreaker)
    → b.poisoned ≡ false
    → since_of b.state ≡ some since
    → since + b.config.reset_timeout ≤ now
    → ((check now b).1 ≡ none)
      × ((record_success (check now b).0).state ≡ closed 0)
      × ((record_failure later (check now b).0).state ≡ opened later)
unfolding check record_success record_failure
probe_recovers since now later b p s h = ground arith
