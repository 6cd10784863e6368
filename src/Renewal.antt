-- ===== src/Renewal.antt =====
-- renewal.rs: the background tasks that renew the token and leases. What a task meets in a round of its
-- loop (the random number, the winner of each `select!`, the answers) is a value of that round, and a
-- task is run over the list of its rounds.
pub mod Sleeps
pub mod Events
pub mod Channel
use vault_client_rs.Prelude.{
  ℕ, zero, suc, ◌+◌, ◌*◌, ◌%◌, ◌^◌, max, Bool, true, false, ◌&&◌, Option, none, some, List, [], ◌∷◌,
  ◌++◌, ltb, if◌then◌else◌,
}
use vault_client_rs.Prelude.Text.{Text}
use vault_client_rs.Prelude.Time.{from_secs, from_millis}
use vault_client_rs.Client.{VaultClient}
use vault_client_rs.Effect.{Env, World, TokenState, Exit, ok, err, panicked}
use vault_client_rs.Token.{try_re_authenticate, renew_token_via_api}

abbrev pub min_renewal_sleep : ℕ
min_renewal_sleep = from_secs 1

-- `base + jitter`, for two thirds of a duration and a random u64.
unfoldable pub jittered : Env → ℕ → ℕ → ℕ
jittered env d random = env.mul_f64 66 d + from_millis (random % 5000)

-- `sleep_dur` of the lease watchers.
unfoldable pub lease_sleep : Env → ℕ → ℕ → ℕ
unfolding jittered
lease_sleep env ttl random = max (jittered env ttl random) min_renewal_sleep

-- `sleep_dur` of the token daemon.
unfoldable pub token_sleep : Env → Option TokenState → ℕ → ℕ
unfolding jittered
token_sleep env none random = from_secs 60
token_sleep env (some ts) random =
    if ts.renewable && ltb 0 ts.lease_duration
    then jittered env ts.lease_duration random
    else from_secs 60

-- `LeaseEvent`; a ttl is in nanoseconds.
pub data LeaseEvent : Type 0 where
  renewed : Text → ℕ → LeaseEvent
  error : Text → Text → LeaseEvent
  expired : Text → LeaseEvent
  rotated : Text → LeaseEvent

-- The answer to `renew_lease`: the lease duration in seconds, the text of an error, or `None` from
-- `race_cancel`.
pub data Answer : Type 0 where
  granted : ℕ → Answer
  refused : Text → Answer
  dropped : Answer

-- A round of a watcher: its random number, whether it is cancelled asleep, and the answer if not.
pub record Round : Type 0 where
  pub random : ℕ
  pub cancelled : Bool
  pub answer : Answer

-- What a watcher did: the sleeps that it began and the events that it sent, oldest first, and whether
-- its loop has ended.
pub record Trace : Type 0 where
  pub slept : List ℕ
  pub events : List LeaseEvent
  pub ended : Bool

abbrev pub stopped : Trace
stopped = record { slept = []; events = []; ended = true }

abbrev pub sending : List LeaseEvent → Trace → Trace
sending es t = record t { events = es ++ t.events }

abbrev pub sleeping : ℕ → Trace → Trace
sleeping d t = record t { slept = d ∷ t.slept }

-- The rest of a round of `watch_lease`, whose events are only logged.
log_answer : Bool → Answer → (ℕ → Trace) → Trace
log_answer true a more = stopped
log_answer false (granted secs) more = more (from_secs secs)
log_answer false (refused e) more = stopped
log_answer false dropped more = stopped

unfoldable pub watch_lease : Env → ℕ → List Round → Trace
unfolding log_answer
watch_lease env ttl [] = record { slept = []; events = []; ended = false }
watch_lease env ttl (r ∷ rs) =
    sleeping (lease_sleep env ttl r.random)
      (log_answer r.cancelled r.answer (λ ttl'. watch_lease env ttl' rs))

-- The rest of a round of `watch_lease_events`.
send_answer : Bool → Answer → Text → (ℕ → Trace) → Trace
send_answer true a lease more = stopped
send_answer false (granted secs) lease more =
    sending (renewed lease (from_secs secs) ∷ []) (more (from_secs secs))
send_answer false (refused e) lease more = sending (error lease e ∷ expired lease ∷ []) stopped
send_answer false dropped lease more = stopped

unfoldable pub watch_lease_events : Env → Text → ℕ → List Round → Trace
unfolding send_answer
watch_lease_events env lease ttl [] = record { slept = []; events = []; ended = false }
watch_lease_events env lease ttl (r ∷ rs) =
    sleeping (lease_sleep env ttl r.random)
      (send_answer r.cancelled r.answer lease (λ ttl'. watch_lease_events env lease ttl' rs))

-- An attempt to rotate: whether its backoff is cancelled, and what `rotate_fn` gives.
pub data Rotation : Type 0 where
  fresh : Text → ℕ → Rotation
  failing : Rotation
  interrupted : Rotation

pub record Attempt : Type 0 where
  pub backoff_cancelled : Bool
  pub rotation : Rotation

pub data Rotated : Type 0 where
  success : Text → ℕ → Rotated
  exhausted : Rotated
  cancelled : Rotated

-- The loop `for attempt in 0u32..3`, with its result, the backoffs that it slept and the number of
-- calls of `rotate_fn`.
pub record RotationRun : Type 0 where
  pub result : Rotated
  pub backoffs : List ℕ
  pub calls : ℕ

abbrev done : Rotated → RotationRun
done r = record { result = r; backoffs = []; calls = 0 }

unfoldable pub backoff_of : ℕ → ℕ
backoff_of attempt = from_millis (500 * 2 ^ attempt)

abbrev called : RotationRun → RotationRun
called r = record r { calls = suc r.calls }

abbrev backed_off : ℕ → RotationRun → RotationRun
backed_off attempt r =
    if ltb 0 attempt then record r { backoffs = backoff_of attempt ∷ r.backoffs } else r

-- One attempt: whether its backoff was cancelled, what `rotate_fn` gave, and the attempts after it.
attempt_run : ℕ → Bool → Rotation → RotationRun → RotationRun
unfolding backoff_of
attempt_run attempt true r more = backed_off attempt (done cancelled)
attempt_run attempt false (fresh lease ttl) more =
    backed_off attempt (called (done (success lease ttl)))
attempt_run attempt false failing more = backed_off attempt (called more)
attempt_run attempt false interrupted more = backed_off attempt (called (done cancelled))

unfoldable pub rotate_attempts : (ℕ → Attempt) → ℕ → ℕ → RotationRun
unfolding attempt_run
rotate_attempts attempts zero attempt = done exhausted
rotate_attempts attempts (suc left) attempt =
    let a = attempts attempt in
    attempt_run attempt (ltb 0 attempt && a.backoff_cancelled) a.rotation
      (rotate_attempts attempts left (attempt + 1))

unfoldable pub rotate : (ℕ → Attempt) → RotationRun
unfolding rotate_attempts
rotate attempts = rotate_attempts attempts 3 0

-- What follows the rotation loop of `watch_lease_rotate`.
after_rotation : Rotated → Text → (Text → ℕ → Trace) → Trace
after_rotation (success lease' ttl') lease more = sending (rotated lease' ∷ []) (more lease' ttl')
after_rotation exhausted lease more = sending (expired lease ∷ []) stopped
after_rotation cancelled lease more = stopped

-- The rest of a round of `watch_lease_rotate`, given how a rotation would end.
rotate_answer : Bool → Answer → Rotated → Text → (Text → ℕ → Trace) → Trace
unfolding after_rotation
rotate_answer true a r lease more = stopped
rotate_answer false (granted secs) r lease more =
    sending (renewed lease (from_secs secs) ∷ []) (more lease (from_secs secs))
rotate_answer false (refused e) r lease more =
    sending (error lease e ∷ []) (after_rotation r lease more)
rotate_answer false dropped r lease more = stopped

unfoldable pub watch_lease_rotate : Env → Text → ℕ → List (Round × (ℕ → Attempt)) → Trace
unfolding rotate_answer rotate
watch_lease_rotate env lease ttl [] = record { slept = []; events = []; ended = false }
watch_lease_rotate env lease ttl ((r, attempts) ∷ rs) = sleeping (lease_sleep env ttl r.random) (
    rotate_answer r.cancelled r.answer (rotate attempts).result lease
      (λ lease' ttl'. watch_lease_rotate env lease' ttl' rs))

-- A round of the token daemon. A call that is cancelled leaves the state as far as it came.
pub data Race : Type 0 where
  finishes : Race
  cut : World → Race

pub record TokenRound : Type 0 where
  pub random : ℕ
  pub cancelled : Bool
  pub renewal : Race
  pub login : Race

-- The fallback after a failed renewal; its own errors are only logged.
re_authenticate_raced : VaultClient → Race → World → World
unfolding try_re_authenticate
re_authenticate_raced c finishes w = (try_re_authenticate c w).1
re_authenticate_raced c (cut w') w = w'

-- The state after a renewal that was not cancelled.
after_renewal : VaultClient → Race → Exit (Unit {0}) → World → World
unfolding re_authenticate_raced
after_renewal c login (ok tt) w = w
after_renewal c login (err e) w = re_authenticate_raced c login w
after_renewal c login panicked w = w

-- The task of `start_token_renewal`: the state, the sleeps begun, and whether the loop has ended.
unfoldable pub renew_token_loop :
    Env → VaultClient → List TokenRound → World → World × List ℕ × Bool
unfolding after_renewal
renew_token_loop env c [] w = (w, [], false)
renew_token_loop env c (r ∷ rs) w =
    let d = token_sleep env w.token r.random in
    let woken = record w { now = w.now + d } in
    let (x, w') = renew_token_via_api env c woken in
    let (w'', ds, ended) = renew_token_loop env c rs (after_renewal c r.login x w') in
    if w.token_poisoned
    then (w, [], true)
    else if r.cancelled
    then (w, d ∷ [], true)
    else elim r.renewal [ cut w3 ↦ (w3, d ∷ [], true) | finishes ↦ (w'', d ∷ ds, ended) ]
