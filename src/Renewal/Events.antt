-- ===== src/Renewal/Events.antt =====
-- The order of the events that the lease watchers of renewal.rs send, and the rotation loop.
use vault_client_rs.Prelude.{
  All, ℕ, ◌+◌, ◌≤◌, ◌<◌, ◌≡◌, refl, ap, ◌∙◌, ◌⊎◌, inl, inr, Bool, true, false, List, [], ◌∷◌, arith,
  zero, suc, ltb, ◌&&◌, if◌then◌else◌,
}
use vault_client_rs.Prelude.Text.{Text}
use vault_client_rs.Prelude.Time.{from_secs}
use native.Mathlib.Decide.{ℕ_discrete}
use vault_client_rs.Effect.{Env}
use vault_client_rs.Renewal.{
  Answer, granted, refused, dropped, Round, Trace, LeaseEvent, renewed, error, expired, rotated,
  send_answer, watch_lease_events, Rotation, RotationRun, attempt_run, rotate_attempts, backoff_of,
  failing, Attempt, Rotated, success, exhausted, cancelled, rotate, rotate_answer,
  watch_lease_rotate,
}

-- The protocol of a rotating watcher for a lease, over its rounds, one event or two for each: a renewal;
-- or an error, followed by the rotation to the lease that the rotation loop gave, for which the
-- protocol goes on, or by the expiry if the loop was exhausted, or by nothing if it was cancelled. A
-- round without an event was cancelled, asleep or in its call, and is the last.
abbrev pub Follows : Bool → List (Round × (ℕ → Attempt)) → Text → List LeaseEvent → Type 0
Follows ended [] lease [] = ended ≡ false
Follows ended ((r, a) ∷ rs) lease [] =
    ((r.cancelled ≡ true) ⊎ (r.answer ≡ dropped)) × (ended ≡ true)
Follows ended (r ∷ rs) lease (renewed l ttl ∷ es) = (l ≡ lease) × Follows ended rs lease es
Follows ended ((r, a) ∷ rs) lease (error l e ∷ []) =
    (l ≡ lease) × ((rotate a).result ≡ cancelled) × (ended ≡ true)
Follows ended ((r, a) ∷ rs) lease (error l e ∷ expired l' ∷ []) =
    (l ≡ lease) × (l' ≡ lease) × ((rotate a).result ≡ exhausted) × (ended ≡ true)
Follows ended ((r, a) ∷ rs) lease (error l e ∷ rotated l' ∷ es) =
    (l ≡ lease) × ((ttl : ℕ) × ((rotate a).result ≡ success l' ttl)) × Follows ended rs l' es
Follows ended _ lease _ = ⊥

-- Without rotation: an error is followed by the expiry at once, and nothing comes after.
abbrev pub Expires : Bool → Text → List LeaseEvent → Type 0
Expires ended lease [] = Unit
Expires ended lease (renewed l ttl ∷ es) = (l ≡ lease) × Expires ended lease es
Expires ended lease (error l e ∷ expired l' ∷ []) = (l ≡ lease) × (l' ≡ lease) × (ended ≡ true)
Expires ended lease _ = ⊥

module _ (env : Env) where
  send_answer-Expires :
      (b : Bool) (a : Answer) (lease : Text) (more : ℕ → Trace)
      → ((ttl : ℕ) → Expires (more ttl).ended lease (more ttl).events)
      → let t = send_answer b a lease more in Expires t.ended lease t.events
  unfolding send_answer
  send_answer-Expires true a lease more h = tt
  send_answer-Expires false (granted secs) lease more h = (refl, h (from_secs secs))
  send_answer-Expires false (refused e) lease more h = (refl, refl, refl)
  send_answer-Expires false dropped lease more h = tt

  -- The events of `watch_lease_events` are renewals of its lease, then at most one error, which is
  -- followed by the expiry as the last event of a task that has ended.
  pub watch_lease_events-Expires :
      (lease : Text) (ttl : ℕ) (rs : List Round)
      → let t = watch_lease_events env lease ttl rs in Expires t.ended lease t.events
  unfolding watch_lease_events
  watch_lease_events-Expires lease ttl [] = tt
  watch_lease_events-Expires lease ttl (r ∷ rs) =
      send_answer-Expires r.cancelled r.answer lease _
        (λ ttl'. watch_lease_events-Expires lease ttl' rs)

  rotate_answer-Follows :
      (r : Round) (a : ℕ → Attempt) (rs : List (Round × (ℕ → Attempt))) (b : Bool) (x : Answer)
      (y : Rotated) (lease : Text) (more : Text → ℕ → Trace)
      → r.cancelled ≡ b
      → r.answer ≡ x
      → (rotate a).result ≡ y
      → ((lease' : Text) (ttl : ℕ)
          → Follows (more lease' ttl).ended rs lease' (more lease' ttl).events)
      → let t = rotate_answer b x y lease more in Follows t.ended ((r, a) ∷ rs) lease t.events
  unfolding rotate_answer
  rotate_answer-Follows r a rs true x y lease more p q s h = (inl p, refl)
  rotate_answer-Follows r a rs false (granted secs) y lease more p q s h =
      (refl, h lease (from_secs secs))
  rotate_answer-Follows r a rs false (refused e) (success l t) lease more p q s h =
      (refl, (t, s), h l t)
  rotate_answer-Follows r a rs false (refused e) exhausted lease more p q s h =
      (refl, refl, s, refl)
  rotate_answer-Follows r a rs false (refused e) cancelled lease more p q s h = (refl, s, refl)
  rotate_answer-Follows r a rs false dropped y lease more p q s h = (inr q, refl)

  -- The events of `watch_lease_rotate` follow the protocol over its rounds: after an error comes the
  -- rotation to the lease that the rotation loop gave, of which the later events speak, or the expiry
  -- as the last event exactly if the loop was exhausted, or nothing if it was cancelled; and a watcher
  -- falls silent only where it was cancelled.
  pub watch_lease_rotate-Follows :
      (lease : Text) (ttl : ℕ) (rs : List (Round × (ℕ → Attempt)))
      → let t = watch_lease_rotate env lease ttl rs in Follows t.ended rs lease t.events
  unfolding watch_lease_rotate
  watch_lease_rotate-Follows lease ttl [] = refl
  watch_lease_rotate-Follows lease ttl ((r, attempts) ∷ rs) =
      rotate_answer-Follows r attempts rs r.cancelled r.answer (rotate attempts).result lease _ refl
        refl refl (λ lease' ttl'. watch_lease_rotate-Follows lease' ttl' rs)

-- The backoffs before the attempts from one on, as many as are left.
abbrev backoffs_from : ℕ → ℕ → List ℕ
backoffs_from zero n = []
backoffs_from (suc left) n =
    let rest = backoffs_from left (n + 1) in if ltb 0 n then backoff_of n ∷ rest else rest

record GivesUp (attempts : ℕ → Attempt) (left n : ℕ) (r : RotationRun) : Type 0 where
  calls : r.calls ≡ left
  backoffs : r.backoffs ≡ backoffs_from left n
  failed : (i : ℕ) → n ≤ i → i < n + left → (attempts i).rotation ≡ failing

calls-attempt_run :
    (n left : ℕ) (b : Bool) (r : Rotation) (more : RotationRun)
    → more.calls ≤ left
    → (attempt_run n b r more).calls ≤ left + 1
unfolding attempt_run
calls-attempt_run n left b r more h = ground arith

calls-rotate_attempts :
    (attempts : ℕ → Attempt) (left n : ℕ) → (rotate_attempts attempts left n).calls ≤ left
unfolding rotate_attempts
calls-rotate_attempts attempts zero n = omega arith
calls-rotate_attempts attempts (suc left) n = omega (
  arith,
  calls-attempt_run n left (ltb 0 n && (attempts n).backoff_cancelled) (attempts n).rotation
      (rotate_attempts attempts left (n + 1)) (calls-rotate_attempts attempts left (n + 1)),
)

attempt_run-exhausted :
    (n : ℕ) (b : Bool) (r : Rotation) (more : RotationRun)
    → (attempt_run n b r more).result ≡ exhausted
    → (b ≡ false) × (r ≡ failing) × (more.result ≡ exhausted)
unfolding attempt_run
attempt_run-exhausted n b r more h = ground arith

attempt_run-GivesUp :
    (n : ℕ) (more : RotationRun)
    → let r = attempt_run n false failing more in
      (r.calls ≡ suc more.calls)
      × (r.backoffs ≡ (if ltb 0 n then backoff_of n ∷ more.backoffs else more.backoffs))
unfolding attempt_run
attempt_run-GivesUp n more = ground arith

rotate_attempts-GivesUp :
    (attempts : ℕ → Attempt) (left n : ℕ)
    → (rotate_attempts attempts left n).result ≡ exhausted
    → GivesUp attempts left n (rotate_attempts attempts left n)
unfolding rotate_attempts
rotate_attempts-GivesUp attempts zero n h = record {
  calls = refl;
  backoffs = refl;
  failed = λ i ge lt. absurd (omega arith);
}
rotate_attempts-GivesUp attempts (suc left) n h =
    let more = rotate_attempts attempts left (n + 1) in
    let (b, r, m) =
      attempt_run-exhausted n (ltb 0 n && (attempts n).backoff_cancelled) (attempts n).rotation more
        h in
    let later = rotate_attempts-GivesUp attempts left (n + 1) m in
    let (calls, backoffs) = attempt_run-GivesUp n more in
    rw (b, r)
      (record {
        calls = calls ∙ ap suc later.calls;
        backoffs = rw (← later.backoffs) backoffs;
        failed = λ i ge lt. elim (ℕ_discrete i n) [
          | yes e ↦ rw e r
          | no ne ↦ later.failed i (omega arith) (omega arith)
        ];
      })

-- The rotation loop calls `rotate_fn` three times at most.
pub calls-rotate : (attempts : ℕ → Attempt) → (rotate attempts).calls ≤ 3
unfolding rotate
calls-rotate attempts = calls-rotate_attempts attempts 3 0

-- The rotation loop gives up only after three calls of `rotate_fn` that all failed, with backoffs of one
-- and two seconds between them.
pub rotate_lem :
    (attempts : ℕ → Attempt)
    → (rotate attempts).result ≡ exhausted
    → ((rotate attempts).calls ≡ 3)
      × ((rotate attempts).backoffs ≡ from_secs 1 ∷ from_secs 2 ∷ [])
      × All (λ i. (attempts i).rotation ≡ failing) (0 ∷ 1 ∷ 2 ∷ [])
unfolding rotate
rotate_lem attempts h =
    let g = rotate_attempts-GivesUp attempts 3 0 h in
    let failed : (i : ℕ) → i < 3 → (attempts i).rotation ≡ failing =
      λ i lt. g.failed i (omega arith) (omega arith) in
    (
      g.calls,
      (unfold backoff_of in g.backoffs),
      (failed 0 (omega arith), (failed 1 (omega arith), (failed 2 (omega arith), tt))),
    )
