-- ===== src/Retry/Frame.antt =====
-- What the retry loop of client/async_client.rs leaves alone, and how long it sleeps.
use vault_client_rs.Prelude.{
  ℕ, zero, suc, ◌+◌, ◌-◌, if◌then◌else◌, ◌≤◌, ◌<◌, ◌≡◌, refl, Bool, false, Option, length, All,
  ◌==◌, arith,
}
use vault_client_rs.Prelude.Text.{Text}
use vault_client_rs.Client.{ClientConfig, max_backoff}
use vault_client_rs.Effect.{Env, Request, Response, World, Exit, ok, err, panicked, continue}
use vault_client_rs.Retry.{
  Next, stop, again, capped_ms, back_off, send_clone, after_round, try_once, rounds,
  send_with_retry,
}
use vault_client_rs.Retry.Backoff.{capped_ms_range}
use vault_client_rs.Retry.Loop.{back_off_returns}

module _ (P : World → Type 0) (env : Env) (c : ClientConfig) (url : Text) (req : Request) where
  -- What a backoff and a round keep, the loop keeps.
  module _
      (back_off_keeps : (attempt : ℕ) (skip : Bool) (w : World)
        → P w
        → P (back_off env c attempt skip w).1)
      (try_once_keeps : (attempt : ℕ) (w : World)
        → P w
        → P (try_once env c url req attempt w).1) where
    continue_keeps :
        (r : Exit (Unit {0})) (f : Unit {0} → World → Exit Response × World) (w : World)
        → P w
        → P (f tt w).1
        → P (continue r f w).1
    continue_keeps (ok tt) f w h k = k
    continue_keeps (err e) f w h k = h
    continue_keeps panicked f w h k = h

    after_round_keeps :
        (n : Next) (w : World) (more : Bool → World → Exit Response × World)
        → P w
        → ((skip : Bool) → P (more skip w).1)
        → P (after_round n w more).1
    unfolding after_round
    after_round_keeps (stop r) w more h k = h
    after_round_keeps (again skip) w more h k = k skip

    rounds_keeps :
        (left attempt : ℕ) (skip : Bool) (w : World)
        → P w
        → P (rounds env c url req left attempt skip w).1
    unfolding rounds
    rounds_keeps zero attempt skip w h = h
    rounds_keeps (suc left) attempt skip w h =
        let (r, w') = back_off env c attempt skip w in
        let (n, w'') = try_once env c url req attempt w' in
        let waited = back_off_keeps attempt skip w h in
        let outcome = try_once_keeps attempt w' waited in
        let more = rounds env c url req left (attempt + 1) in
        continue_keeps r (λ _ _. after_round n w'' more) w' waited
          (after_round_keeps n w'' more outcome
            (λ skip'. rounds_keeps left (attempt + 1) skip' w'' outcome))

    pub send_with_retry_keeps : (w : World) → P w → P (send_with_retry env c url req w).1
    unfolding send_with_retry
    send_with_retry_keeps w h = rounds_keeps (c.max_retries + 1) 0 false w h

-- The client's own state is as before, and the clock has not gone back.
pub record SameClient (w w' : World) : Type 0 where
  pub token : w'.token ≡ w.token
  pub token_poisoned : w'.token_poisoned ≡ w.token_poisoned
  pub circuit_breaker : w'.circuit_breaker ≡ w.circuit_breaker
  pub token_changes : w'.token_changes ≡ w.token_changes
  pub clock : w.now ≤ w'.now

back_off-SameClient :
    (env : Env) (c : ClientConfig) (attempt : ℕ) (skip : Bool) (w0 w : World)
    → SameClient w0 w
    → SameClient w0 (back_off env c attempt skip w).1
unfolding back_off
back_off-SameClient env c attempt skip w0 w h = ground arith

try_once-SameClient :
    (env : Env) (c : ClientConfig) (url : Text) (req : Request) (attempt : ℕ) (w0 w : World)
    → SameClient w0 w
    → SameClient w0 (try_once env c url req attempt w).1
unfolding try_once
try_once-SameClient env c url req attempt w0 w h = ground arith

pub send_with_retry-SameClient :
    (env : Env) (c : ClientConfig) (url : Text) (req : Request) (w : World)
    → SameClient w (send_with_retry env c url req w).1
send_with_retry-SameClient env c url req w =
    send_with_retry_keeps (SameClient w) env c url req
      (λ attempt skip w' h. back_off-SameClient env c attempt skip w w' h)
      (λ attempt w' h. try_once-SameClient env c url req attempt w w' h) w
      (record {
        token = refl;
        token_poisoned = refl;
        circuit_breaker = refl;
        token_changes = refl;
        clock = omega arith;
      })

-- Every sleep so far is at most `MAX_BACKOFF`.
abbrev pub IsPatient : World → Type 0
IsPatient w = All (λ d. d ≤ max_backoff) w.sleeps

module _ (env : Env) (random_lt : (k n : ℕ) → 0 < n → env.random_range k n < n)
    (c : ClientConfig) where
  back_off-IsPatient :
      (attempt : ℕ) (skip : Bool) (w : World)
      → IsPatient w
      → IsPatient (back_off env c attempt skip w).1
  unfolding back_off
  back_off-IsPatient attempt skip w h = ground (
    arith,
    capped_ms_range c.initial_retry_delay attempt,
    random_lt w.draws (capped_ms c.initial_retry_delay attempt),
  )

  try_once-IsPatient :
      (url : Text) (req : Request) (attempt : ℕ) (w : World)
      → IsPatient w
      → IsPatient (try_once env c url req attempt w).1
  unfolding try_once
  try_once-IsPatient url req attempt w h = ground arith

-- The sleeps that may precede a round: one for each retry before it.
abbrev naps : ℕ → Bool → ℕ
naps attempt skip = if attempt == 0 then 0 else if skip then attempt else attempt - 1

module _ (env : Env) (c : ClientConfig) (url : Text) where
  back_off-naps :
      (attempt base : ℕ) (skip : Bool) (w : World)
      → length w.sleeps ≤ base + naps attempt skip
      → length (back_off env c attempt skip w).1.sleeps ≤ base + attempt
  unfolding back_off
  back_off-naps attempt base skip w h = ground arith

  -- A round sleeps only before another one, which then has no backoff.
  abbrev Naps : ℕ → ℕ → Next × World → Type 0
  Naps base attempt (stop r, w) = length w.sleeps ≤ base + attempt
  Naps base attempt (again skip, w) =
      (attempt < c.max_retries) × (length w.sleeps ≤ base + naps (attempt + 1) skip)

  send_clone-Naps :
      (attempt base : ℕ) (o : Option Request) (w : World)
      → length w.sleeps ≤ base + attempt
      → Naps base attempt (send_clone env c url attempt o w)
  unfolding send_clone
  send_clone-Naps attempt base o w h = ground arith

  after_round-naps :
      (attempt base : ℕ) (n : Next) (w : World) (more : Bool → World → Exit Response × World)
      → attempt ≤ c.max_retries
      → Naps base attempt (n, w)
      → ((skip : Bool)
          → attempt < c.max_retries
          → length w.sleeps ≤ base + naps (attempt + 1) skip
          → length (more skip w).1.sleeps ≤ base + c.max_retries)
      → length (after_round n w more).1.sleeps ≤ base + c.max_retries
  unfolding after_round
  after_round-naps attempt base (stop r) w more le h k = omega arith
  after_round-naps attempt base (again skip) w more le h k = k skip h.0 h.1

  rounds-naps :
      (req : Request) (left attempt base : ℕ) (skip : Bool) (w : World)
      → attempt + left ≡ c.max_retries + 1
      → attempt ≤ c.max_retries
      → length w.sleeps ≤ base + naps attempt skip
      → length (rounds env c url req left attempt skip w).1.sleeps ≤ base + c.max_retries
  unfolding rounds
  rounds-naps req zero attempt base skip w e le h = absurd (omega arith)
  rounds-naps req (suc left) attempt base skip w e le h =
      let w' = (back_off env c attempt skip w).1 in
      rw (back_off_returns env c url attempt skip w).0 (
        after_round-naps attempt base _ _ _ le
          (send_clone-Naps attempt base (env.try_clone req) w'
            (back_off-naps attempt base skip w h))
          (λ skip' lt s.
            rounds-naps req left (attempt + 1) base skip' _ (omega arith) (omega arith) s))

-- The loop sleeps at most once for each retry, and never longer than `MAX_BACKOFF` at a time, if the
-- random numbers are below the bounds that they are drawn for. It leaves the client's own state (token,
-- circuit breaker, callbacks) as it was, and time does not go back.
pub send_with_retry-sleeps :
    (env : Env)
    → ((k n : ℕ) → 0 < n → env.random_range k n < n)
    → (c : ClientConfig) (url : Text) (req : Request) (w : World) → IsPatient w
    → let w' = (send_with_retry env c url req w).1 in
      IsPatient w' × (length w'.sleeps ≤ length w.sleeps + c.max_retries) × SameClient w w'
unfolding send_with_retry
send_with_retry-sleeps env random_lt c url req w h = (
  send_with_retry_keeps IsPatient env c url req (back_off-IsPatient env random_lt c)
      (try_once-IsPatient env random_lt c url req) w h,
  rounds-naps env c url req (c.max_retries + 1) 0 (length w.sleeps) false w (omega arith)
      (omega arith) (omega arith),
  send_with_retry-SameClient env c url req w,
)
