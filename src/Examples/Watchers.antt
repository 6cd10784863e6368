-- ===== src/Examples/Watchers.antt =====
-- Runs of the background tasks.
use vault_client_rs.Prelude.{
  ℕ, zero, suc, ◌+◌, ◌≤◌, ◌<◌, ◌≡◌, ◌≢◌, refl, true, false, some, List, [], ◌∷◌, All, arith,
}
use vault_client_rs.Prelude.Text.{Text, codes}
use vault_client_rs.Prelude.Time.{from_secs}
use vault_client_rs.Effect.{TokenState}
use vault_client_rs.Renewal.{
  lease_sleep, token_sleep, Round, granted, refused, dropped, Attempt, failing, fresh, exhausted,
  rotate, watch_lease_rotate, renewed, error, rotated,
}
use vault_client_rs.Renewal.Sleeps.{sleep-lt-lease, token_sleep_misses, sleep_may_miss}
use vault_client_rs.Renewal.Events.{Follows, watch_lease_rotate-Follows, rotate_lem}
use vault_client_rs.Renewal.Channel.{
  Phase, pushing, finished, TaskRun, start, here, shut_down, sending_next, capacity,
  shut_down-hangs,
}
use vault_client_rs.Examples.{server, server-IsRounded, due_token}

abbrev lease : Text
lease = codes "db/1"

abbrev leased : ℕ → TokenState
leased secs = record due_token { lease_duration = from_secs secs }

sleep-lt-lease_example :
    (lease_sleep (server 200) (from_secs 15) 4999 < from_secs 15)
    × (token_sleep (server 200) (some (leased 15)) 4999 < from_secs 15)
sleep-lt-lease_example =
    sleep-lt-lease (server 200) (server-IsRounded 200) 15 4999 (leased 15) (omega arith) refl refl

-- A token with an hour's lease of which half is left.
abbrev halfway : TokenState
halfway = record due_token { lease_duration = from_secs 3600; expires_at = some (from_secs 2000) }

token_sleep_misses_example :
    from_secs 2000 ≤ from_secs 200 + token_sleep (server 200) (some halfway) 0
token_sleep_misses_example =
    token_sleep_misses (server 200) (server-IsRounded 200) 3600 0 (from_secs 200) (from_secs 2000)
      halfway (omega arith) refl refl refl (omega arith)

sleep_may_miss_example :
    (from_secs 10 ≤ lease_sleep (server 200) (from_secs 10) 4999)
    × (from_secs 10 ≤ token_sleep (server 200) (some (leased 10)) 4999)
sleep_may_miss_example =
    sleep_may_miss (server 200) (server-IsRounded 200) 10 4999 (leased 10) (omega arith)
      (omega arith) refl refl refl

abbrev rounds : List Round
rounds =
    record { random = 3; cancelled = false; answer = granted 60 }
    ∷ record { random = 9; cancelled = false; answer = refused (codes "gone") }
    ∷ record { random = 4; cancelled = true; answer = dropped }
    ∷ []

-- The first attempt fails, and the second gives a new lease.
abbrev recovering : ℕ → Attempt
recovering zero = record { backoff_cancelled = false; rotation = failing }
recovering (suc n) = record {
  backoff_cancelled = false;
  rotation = fresh (codes "db/2") (from_secs 60);
}

abbrev hopeless : ℕ → Attempt
hopeless n = record { backoff_cancelled = false; rotation = failing }

abbrev rotations : List (Round × (ℕ → Attempt))
rotations =
    (record { random = 9; cancelled = false; answer = refused (codes "gone") }, recovering)
    ∷ (record { random = 3; cancelled = false; answer = granted 60 }, hopeless)
    ∷ []

events :
    (watch_lease_rotate (server 200) lease (from_secs 60) rotations).events
    ≡ error lease (codes "gone")
      ∷ rotated (codes "db/2")
      ∷ renewed (codes "db/2") (from_secs 60)
      ∷ []
unfolding watch_lease_rotate
events = refl

watch_lease_rotate-Follows_example :
    let t = watch_lease_rotate (server 200) lease (from_secs 60) rotations in
    Follows t.ended rotations lease t.events
watch_lease_rotate-Follows_example =
    watch_lease_rotate-Follows (server 200) lease (from_secs 60) rotations

gives_up : (rotate hopeless).result ≡ exhausted
unfolding rotate
gives_up = refl

rotate_lem_example :
    ((rotate hopeless).calls ≡ 3)
    × ((rotate hopeless).backoffs ≡ from_secs 1 ∷ from_secs 2 ∷ [])
    × All (λ i. (hopeless i).rotation ≡ failing) (0 ∷ 1 ∷ 2 ∷ [])
rotate_lem_example = rotate_lem hopeless gives_up

shut_down-hangs_example :
    TaskRun lease start (sending_next lease capacity)
    × ((shut_down (sending_next lease capacity)).phase ≢ finished)
shut_down-hangs_example = shut_down-hangs lease (shut_down (sending_next lease capacity)) here

abbrev renewing_once : Phase
renewing_once = pushing (renewed lease 0 ∷ []) false
