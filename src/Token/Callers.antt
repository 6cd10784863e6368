-- ===== src/Token/Callers.antt =====
-- `ensure_valid_token` of client/async_client.rs run by any number of callers of one client at a time, as
-- a step relation: which caller goes on, and what happens elsewhere, is open.
use vault_client_rs.Prelude.{
  ℕ, ◌+◌, true, false, Option, none, some, ◌≡◌, ◌⊎◌, ◌==◌, if◌then◌else◌, is_some,
}
use vault_client_rs.Client.{VaultClient}
use vault_client_rs.Effect.{Env, World}
use vault_client_rs.Token.{
  Action, proceed, re_auth, renew, action_for, still_needed, try_re_authenticate, renew_if,
}

-- Where a caller is: before the choice of its action, waiting for `renewal_lock`, with the lock before
-- and after the second look at the token, or past the function.
pub data CallerPhase : Type 0 where
  arriving queueing holding renewing finished : CallerPhase

-- The callers are numbered. `lock` is the owner of `renewal_lock`, and `renewals` counts the renewals
-- that were completed.
pub record Callers : Type 0 where
  pub world : World
  pub lock : Option ℕ
  pub phase : ℕ → CallerPhase
  pub renewals : ℕ

abbrev pub set : ℕ → CallerPhase → (ℕ → CallerPhase) → ℕ → CallerPhase
set i p phase k = if k == i then p else phase k

-- A guard that is dropped releases the lock.
abbrev pub released : ℕ → Option ℕ → Option ℕ
released i none = none
released i (some k) = if k == i then none else some k

unfoldable pub phase_after : Action → CallerPhase
phase_after proceed = finished
phase_after re_auth = finished
phase_after renew = queueing

unfoldable pub world_after : VaultClient → Action → World → World
world_after c re_auth w = (try_re_authenticate c w).1
world_after c _ w = w

module _ (env : Env) (c : VaultClient) where
  abbrev pub chosen : World → Action
  chosen w =
      if w.token_poisoned
      then proceed
      else action_for env w.now (is_some c.inner.auth_method) w.token

  pub data CallerStep : Callers → Callers → Type 0 where
    choose :
        {s : Callers} (i : ℕ)
        → s.phase i ≡ arriving
        → CallerStep s (record s {
          world = world_after c (chosen s.world) s.world;
          phase = set i (phase_after (chosen s.world)) s.phase;
        })
    acquire :
        {s : Callers} (i : ℕ)
        → s.phase i ≡ queueing
        → s.lock ≡ none
        → CallerStep s (record s { lock = some i; phase = set i holding s.phase })
    look_again :
        {s : Callers} (i : ℕ)
        → s.phase i ≡ holding
        → s.world.token_poisoned ≡ false
        → still_needed env s.world.now s.world.token ≡ true
        → CallerStep s (record s { phase = set i renewing s.phase })
    leave :
        {s : Callers} (i : ℕ)
        → s.phase i ≡ holding
        → (s.world.token_poisoned ≡ true) ⊎ (still_needed env s.world.now s.world.token ≡ false)
        → CallerStep s (record s { lock = released i s.lock; phase = set i finished s.phase })
    -- the renewal, or the login that it falls back to, is over
    complete :
        {s : Callers} (i : ℕ)
        → s.phase i ≡ renewing
        → CallerStep s (record s {
          world = (renew_if env c true s.world).1;
          lock = released i s.lock;
          phase = set i finished s.phase;
          renewals = s.renewals + 1;
        })
    -- the future of a caller is dropped
    drop :
        {s : Callers} (i : ℕ)
        → CallerStep s (record s { lock = released i s.lock; phase = set i finished s.phase })
    -- time passes, or another operation changes the world
    elsewhere : {s : Callers} (w : World) → CallerStep s (record s { world = w })

  pub data CallerRun (s : Callers) : Callers → Type 0 where
    here : CallerRun s s
    and_then : (t u : Callers) → CallerRun s t → CallerStep t u → CallerRun s u

-- Nobody has begun.
abbrev pub all_arriving : World → Callers
all_arriving w = record { world = w; lock = none; phase = λ i. arriving; renewals = 0 }
