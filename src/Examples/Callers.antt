-- ===== src/Examples/Callers.antt =====
-- Two callers that share a renewal.
use vault_client_rs.Prelude.{ℕ, ◌+◌, ◌≤◌, ◌≡◌, refl, true, some, inl, inr}
use vault_client_rs.CircuitBreaker
use vault_client_rs.CircuitBreaker.{check, record_success}
use vault_client_rs.Effect.{Env}
use vault_client_rs.Retry.{send_with_retry}
use vault_client_rs.Request.{execute_raw}
use vault_client_rs.Token.{
  action_for, token_needs_renewal, token_of, still_needed, renew_if, renew_token_via_api,
  update_token_from_auth,
}
use vault_client_rs.Token.Callers.{
  holding, renewing, finished, Callers, set, released, phase_after, world_after, chosen, choose,
  acquire, look_again, leave, complete, CallerRun, here, and_then, all_arriving,
}
use vault_client_rs.Token.Exclusive.{IsFresh, Throughout, run-exclusive, run-one_renewal}
use vault_client_rs.Examples.{server, some_client, some_world}

abbrev env : Env
env = server 200

abbrev choosing : ℕ → Callers → Callers
choosing i s = record s {
  world = world_after some_client (chosen env some_client s.world) s.world;
  phase = set i (phase_after (chosen env some_client s.world)) s.phase;
}

abbrev acquiring : ℕ → Callers → Callers
acquiring i s = record s { lock = some i; phase = set i holding s.phase }

abbrev looking : ℕ → Callers → Callers
looking i s = record s { phase = set i renewing s.phase }

abbrev leaving : ℕ → Callers → Callers
leaving i s = record s { lock = released i s.lock; phase = set i finished s.phase }

abbrev completing : ℕ → Callers → Callers
completing i s = record s {
  world = (renew_if env some_client true s.world).1;
  lock = released i s.lock;
  phase = set i finished s.phase;
  renewals = s.renewals + 1;
}

abbrev first_renews : Callers
first_renews = looking 0 (acquiring 0 (choosing 1 (choosing 0 (all_arriving some_world))))

abbrev first_leaves : Callers
first_leaves = completing 0 first_renews

abbrev second_leaves : Callers
second_leaves = leaving 1 (acquiring 1 first_leaves)

unfoldable run_first : CallerRun env some_client (all_arriving some_world) first_renews
unfolding phase_after world_after action_for token_needs_renewal still_needed
run_first =
    and_then _ _
      (and_then _ _ (and_then _ _ (and_then _ _ here (choose 0 refl)) (choose 1 refl))
        (acquire 0 refl refl))
      (look_again 0 refl refl refl)

unfoldable run_second : CallerRun env some_client (all_arriving some_world) second_leaves
unfolding phase_after world_after action_for token_needs_renewal still_needed renew_if
    renew_token_via_api execute_raw send_with_retry check record_success CircuitBreaker.new
    update_token_from_auth token_of
run_second =
    and_then _ _ (and_then _ _ (and_then _ _ run_first (complete 0 refl)) (acquire 1 refl refl))
      (leave 1 refl (inr refl))

run-exclusive_example : ◌≡◌ {A = ℕ} 0 0
run-exclusive_example =
    run-exclusive env some_client some_world first_renews 0 0 run_first (inr refl) (inr refl)

stays-IsFresh :
    Throughout env some_client
      (IsFresh env some_client)
      (all_arriving some_world)
      second_leaves
      run_second
unfolding run_first run_second token_needs_renewal still_needed renew_if renew_token_via_api
    execute_raw send_with_retry check record_success CircuitBreaker.new update_token_from_auth
    token_of
stays-IsFresh =
    (((((((inl refl, inl refl), inl refl), inl refl), inl refl), inr refl), inr refl), inr refl)

run-one_renewal_example : second_leaves.renewals ≤ 1
run-one_renewal_example =
    run-one_renewal env some_client some_world second_leaves run_second stays-IsFresh
