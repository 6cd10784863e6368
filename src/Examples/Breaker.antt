-- ===== src/Examples/Breaker.antt =====
-- Runs of the circuit breaker, alone and in a client.
use vault_client_rs.Prelude.{suc, ◌-◌, ◌≡◌, refl, false, none, some, [], ◌∷◌, ◌++◌, arith}
use vault_client_rs.Prelude.Text.{codes, trim_start_matches}
use vault_client_rs.Prelude.Time.{from_secs}
use vault_client_rs.VaultError.{permission_denied}
use vault_client_rs.CircuitBreaker
use vault_client_rs.CircuitBreaker.{CircuitBreaker, default, closed, opened, check}
use vault_client_rs.CircuitBreaker.Invariant.{
  IsCounting, checking, success, failure, run, run-new_bounded,
}
use vault_client_rs.CircuitBreaker.Trips.{from_streak, streak, record_all, record_all-streak}
use vault_client_rs.CircuitBreaker.Windows.{IsSpaced, admitted, probes-IsSpaced}
use vault_client_rs.Effect.{World, get, err, extract_errors}
use vault_client_rs.Retry.{send_with_retry}
use vault_client_rs.Request.{execute_raw}
use vault_client_rs.Request.Within.{Within, IsAnswer, budget, execute_raw-Within}
use vault_client_rs.Request.Breaking.{IsRecorded, execute_raw-IsRecorded, execute_raw-error_trips}
use vault_client_rs.Examples.{server, some_client, some_world}

abbrev open_breaker : CircuitBreaker
open_breaker = record { config = default; state = opened (from_secs 90); poisoned = false }

abbrev counting : CircuitBreaker
counting = record { config = default; state = closed 4; poisoned = false }

abbrev open_world : World
open_world = record some_world { circuit_breaker = some open_breaker }

abbrev counting_world : World
counting_world = record some_world { circuit_breaker = some counting }

record_all-streak_example :
    (record_all (CircuitBreaker.new default) (some 1 ∷ none ∷ some 5 ∷ some 7 ∷ [])).state
    ≡ from_streak 0
        (suc (default.failure_threshold - 1))
        (streak [] (some 1 ∷ none ∷ some 5 ∷ some 7 ∷ []))
record_all-streak_example =
    record_all-streak default (some 1 ∷ none ∷ some 5 ∷ some 7 ∷ []) (omega arith)

run-new_bounded_example :
    IsCounting default (run (CircuitBreaker.new default) (failure 3 ∷ checking 4 ∷ success ∷ []))
run-new_bounded_example = run-new_bounded default (failure 3 ∷ checking 4 ∷ success ∷ [])

probes-IsSpaced_example : IsSpaced default.reset_timeout (from_secs 90) (
    admitted open_breaker
      (checking (from_secs 100) ∷ checking (from_secs 130) ∷ checking (from_secs 140) ∷ []))
probes-IsSpaced_example =
    probes-IsSpaced (from_secs 90) open_breaker
      (checking (from_secs 100) ∷ checking (from_secs 130) ∷ checking (from_secs 140) ∷ [])
      (omega arith) refl refl (omega arith, (omega arith, (omega arith, tt)))

execute_raw-Within_example :
    Within
      (budget (server 500) some_client)
      some_world
      (execute_raw (server 500) some_client get (codes "kv/a") none some_world).1
    × IsAnswer (execute_raw (server 500) some_client get (codes "kv/a") none some_world).0
execute_raw-Within_example =
    execute_raw-Within (server 500) some_client get (codes "kv/a") none some_world

check-counting : check counting_world.now counting ≡ (counting, none)
unfolding check
check-counting = refl

execute_raw-IsRecorded_example :
    IsRecorded counting
      (execute_raw (server 403) some_client get (codes "kv/a") none counting_world)
execute_raw-IsRecorded_example =
    execute_raw-IsRecorded (server 403) some_client get (codes "kv/a") none counting_world counting
      counting (codes "https://vault/v1/" ++ trim_start_matches b'/' (codes "kv/a")) refl
      check-counting refl refl

forbidden :
    (execute_raw (server 403) some_client get (codes "kv/a") none counting_world).0
    ≡ err (permission_denied [])
unfolding execute_raw send_with_retry check extract_errors
forbidden = refl

execute_raw-error_trips_example :
    let w' = (execute_raw (server 403) some_client get (codes "kv/a") none counting_world).1 in
    w'.circuit_breaker ≡ some (record counting { state = opened w'.now })
execute_raw-error_trips_example =
    execute_raw-error_trips (server 403) some_client get (codes "kv/a") none counting_world counting
      4 (codes "https://vault/v1/" ++ trim_start_matches b'/' (codes "kv/a")) refl refl refl
      (omega arith) (omega arith) refl refl forbidden
