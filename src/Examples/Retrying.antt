-- ===== src/Examples/Retrying.antt =====
-- Runs of the retry loop.
use vault_client_rs.Prelude.{◌+◌, ◌-◌, ◌≤◌, ◌≡◌, refl, some, none, length}
use vault_client_rs.Prelude.Text.{codes, parse_u64}
use vault_client_rs.Client.{default_config}
use vault_client_rs.Effect.{Response, err}
use vault_client_rs.VaultError.{consistency_retry}
use vault_client_rs.Retry.{on_response, send_with_retry}
use vault_client_rs.Retry.Statuses.{IsVerdict, on_response-IsVerdict}
use vault_client_rs.Retry.Loop.{Ends, send_with_retry-Ends}
use vault_client_rs.Retry.Frame.{IsPatient, SameClient, send_with_retry-sleeps}
use vault_client_rs.Examples.{server, some_request, some_world}

gives_up :
    (send_with_retry (server 412) default_config (codes "u") some_request some_world).0
    ≡ err consistency_retry
unfolding send_with_retry
gives_up = refl

abbrev limited : Response
limited = record { status = 429; retry_after = some (codes "3"); body = none }

on_response-IsVerdict_example :
    IsVerdict default_config 0 limited.status
      (on_response (server 429) default_config (codes "u") 0 limited some_world).0
on_response-IsVerdict_example =
    on_response-IsVerdict (server 429) default_config (codes "u") 0 limited some_world

send_with_retry-Ends_example :
    let (r, w') = send_with_retry (server 500) default_config (codes "u") some_request some_world in
    (length some_world.sent ≤ length w'.sent)
    × (length w'.sent ≤ length some_world.sent + default_config.max_retries + 1)
    × Ends default_config (length w'.sent - length some_world.sent) r
send_with_retry-Ends_example =
    send_with_retry-Ends (server 500) default_config (codes "u") some_request some_world

send_with_retry-sleeps_example :
    let w' = (send_with_retry (server 500) default_config (codes "u") some_request some_world).1 in
    IsPatient w'
    × (length w'.sleeps ≤ length some_world.sleeps + default_config.max_retries)
    × SameClient some_world w'
send_with_retry-sleeps_example =
    send_with_retry-sleeps (server 500) (λ k n pos. pos) default_config (codes "u") some_request
      some_world tt

-- What `parse::<u64>` takes: a sign, and no number above u64::MAX.
parses :
    (parse_u64 (codes "+30") ≡ some 30)
    × (parse_u64 (codes "18446744073709551616") ≡ none)
    × (parse_u64 (codes "1.5") ≡ none)
unfolding parse_u64
parses = (refl, refl, refl)
