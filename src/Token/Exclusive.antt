-- ===== src/Token/Exclusive.antt =====
-- The renewal lock of client/async_client.rs: one caller renews at a time, and concurrent callers share
-- one renewal.
use vault_client_rs.Prelude.{
  ℕ, ◌+◌, ◌≤◌, ◌≡◌, ◌≢◌, ◌⊎◌, inl, inr, refl, true, false, Option, some, arith,
}
use native.Mathlib.Decide.{ℕ_discrete}
use vault_client_rs.Client.{VaultClient}
use vault_client_rs.Effect.{Env, World}
use vault_client_rs.Token.{Action, proceed, re_auth, renew, still_needed}
use vault_client_rs.Token.Callers.{
  CallerPhase, holding, renewing, finished, Callers, set, released, phase_after, chosen, CallerStep,
  choose, acquire, look_again, leave, complete, drop, elsewhere, CallerRun, here, and_then,
  all_arriving,
}

-- Between the acquisition of the lock and its release.
abbrev pub IsInside : CallerPhase → Type 0
IsInside p = (p ≡ holding) ⊎ (p ≡ renewing)

set-same : (i : ℕ) (p : CallerPhase) (f : ℕ → CallerPhase) → set i p f i ≡ p
set-same i p f = ground arith

set-other : (i k : ℕ) (p : CallerPhase) (f : ℕ → CallerPhase) → k ≢ i → set i p f k ≡ f k
set-other i k p f ne = ground arith

released-other : (i k : ℕ) → k ≢ i → released i (some k) ≡ some k
released-other i k ne = ground arith

-- A caller inside owns the lock.
abbrev IsOwner : Callers → Type 0
IsOwner s = (i : ℕ) → IsInside (s.phase i) → s.lock ≡ some i

-- Caller i moves on to p, with the lock l after it.
move :
    (f : ℕ → CallerPhase) (old l : Option ℕ) (i : ℕ) (p : CallerPhase)
    → ((k : ℕ) → IsInside (f k) → old ≡ some k)
    → (IsInside p → l ≡ some i)
    → ((k : ℕ) → k ≢ i → old ≡ some k → l ≡ some k)
    → (k : ℕ) → IsInside (set i p f k)
    → l ≡ some k
move f old l i p h own others k inside = elim (ℕ_discrete k i) [
  | yes e ↦ rw e (own (rw (e, set-same i p f) at inside))
  | no ne ↦ others k ne (h k (rw (set-other i k p f ne) at inside))
]

phase_after-outside : (a : Action) → IsInside (phase_after a) → ⊥
unfolding phase_after
phase_after-outside proceed h = ground arith
phase_after-outside re_auth h = ground arith
phase_after-outside renew h = ground arith

finished-outside : IsInside finished → ⊥
finished-outside h = ground arith

release : (old : Option ℕ) (i k : ℕ) → k ≢ i → old ≡ some k → released i old ≡ some k
release old i k ne e = rw e (released-other i k ne)

module _ (env : Env) (c : VaultClient) where
  step-IsOwner : (s t : Callers) → IsOwner s → CallerStep env c s t → IsOwner t
  step-IsOwner s t h (choose i p) =
      move s.phase s.lock s.lock i (phase_after (chosen env c s.world)) h
        (λ x. absurd (phase_after-outside _ x)) (λ k ne e. e)
  step-IsOwner s t h (acquire i p free) =
      move s.phase s.lock (some i) i holding h (λ x. refl) (λ k ne e. cc (free, e))
  step-IsOwner s t h (look_again i p q n) =
      move s.phase s.lock s.lock i renewing h (λ x. h i (inl p)) (λ k ne e. e)
  step-IsOwner s t h (leave i p q) =
      move s.phase s.lock (released i s.lock) i finished h (λ x. absurd (finished-outside x))
        (release s.lock i)
  step-IsOwner s t h (complete i p) =
      move s.phase s.lock (released i s.lock) i finished h (λ x. absurd (finished-outside x))
        (release s.lock i)
  step-IsOwner s t h (drop i) =
      move s.phase s.lock (released i s.lock) i finished h (λ x. absurd (finished-outside x))
        (release s.lock i)
  step-IsOwner s t h (elsewhere w) = h

  run-IsOwner : (s t : Callers) → IsOwner s → CallerRun env c s t → IsOwner t
  run-IsOwner s t h here = h
  run-IsOwner s t h (and_then u v r st) = step-IsOwner u t (run-IsOwner s u h r) st

  start-IsOwner : (w : World) → IsOwner (all_arriving w)
  start-IsOwner w i h = ground arith

  -- However the callers of `ensure_valid_token` interleave, are dropped, and whatever else happens to
  -- the client meanwhile, two of them are never between the acquisition and the release of the renewal
  -- lock at a time.
  pub run-exclusive :
      (w : World) (t : Callers) (i j : ℕ)
      → CallerRun env c (all_arriving w) t
      → IsInside (t.phase i)
      → IsInside (t.phase j)
      → i ≡ j
  run-exclusive w t i j r hi hj =
      let h = run-IsOwner (all_arriving w) t (start-IsOwner w) r in
      let a = h i hi in let b = h j hj in cc (a, b)

  -- Once a renewal is completed, the token is not due.
  abbrev pub IsFresh : Callers → Type 0
  IsFresh s = (s.renewals ≡ 0) ⊎ (still_needed env s.world.now s.world.token ≡ false)

  abbrev pub Throughout : (P : Callers → Type 0) (s t : Callers) → CallerRun env c s t → Type 0
  Throughout P s t here = P s
  Throughout P s t (and_then u v r st) = Throughout P s u r × P v

  -- No renewal is completed, or one is and no caller is about to complete another.
  abbrev IsSingle : Callers → Type 0
  IsSingle s = (s.renewals ≡ 0) ⊎ ((s.renewals ≡ 1) × ((i : ℕ) → s.phase i ≢ renewing))

  at_most_one : (s : Callers) → IsSingle s → s.renewals ≤ 1
  at_most_one s (inl z) = omega (arith, z)
  at_most_one s (inr (one, quiet)) = omega (arith, one)

  set-not_renewing :
      (f : ℕ → CallerPhase) (i : ℕ) (p : CallerPhase)
      → p ≢ renewing
      → ((k : ℕ) → k ≢ i → f k ≢ renewing)
      → (k : ℕ) → set i p f k ≢ renewing
  set-not_renewing f i p ne others k e = elim (ℕ_discrete k i) [
    | yes same ↦ ne (rw (same, set-same i p f) at e)
    | no other ↦ others k other (rw (set-other i k p f other) at e)
  ]

  phase_after-not_renewing : (a : Action) → phase_after a ≢ renewing
  phase_after-not_renewing a e = phase_after-outside a (inr e)

  finished-not_renewing : finished ≢ renewing
  finished-not_renewing e = cc e

  -- A caller that moves on, but not to the renewal.
  moves-IsSingle :
      (f : ℕ → CallerPhase) (n i : ℕ) (p : CallerPhase)
      → p ≢ renewing
      → (n ≡ 0) ⊎ ((n ≡ 1) × ((k : ℕ) → f k ≢ renewing))
      → (n ≡ 0) ⊎ ((n ≡ 1) × ((k : ℕ) → set i p f k ≢ renewing))
  moves-IsSingle f n i p ne (inl z) = inl z
  moves-IsSingle f n i p ne (inr (one, quiet)) =
      inr (one, set-not_renewing f i p ne (λ k other. quiet k))

  complete-IsSingle :
      (s : Callers) (i : ℕ)
      → IsOwner s
      → s.phase i ≡ renewing
      → IsSingle s
      → (s.renewals + 1 ≡ 1) × ((k : ℕ) → set i finished s.phase k ≢ renewing)
  complete-IsSingle s i own p (inr (one, quiet)) = absurd (quiet i p)
  complete-IsSingle s i own p (inl z) = (
    omega (arith, z),
    set-not_renewing s.phase i finished finished-not_renewing
        (λ k other e. let a = own i (inr p) in let b = own k (inr e) in other (cc (a, b))),
  )

  look_again-IsSingle :
      (s : Callers) (i : ℕ)
      → still_needed env s.world.now s.world.token ≡ true
      → IsFresh s
      → s.renewals ≡ 0
  look_again-IsSingle s i n (inl z) = z
  look_again-IsSingle s i n (inr f) = cc (n, f)

  step-IsSingle :
      (s t : Callers) → IsOwner s → IsFresh s → IsSingle s → CallerStep env c s t → IsSingle t
  step-IsSingle s t own fresh h (choose i p) =
      moves-IsSingle s.phase s.renewals i _ (phase_after-not_renewing _) h
  step-IsSingle s t own fresh h (acquire i p free) =
      moves-IsSingle s.phase s.renewals i holding (λ e. cc e) h
  step-IsSingle s t own fresh h (look_again i p q n) = inl (look_again-IsSingle s i n fresh)
  step-IsSingle s t own fresh h (leave i p q) =
      moves-IsSingle s.phase s.renewals i finished finished-not_renewing h
  step-IsSingle s t own fresh h (complete i p) = inr (complete-IsSingle s i own p h)
  step-IsSingle s t own fresh h (drop i) =
      moves-IsSingle s.phase s.renewals i finished finished-not_renewing h
  step-IsSingle s t own fresh h (elsewhere w) = h

  last : (P : Callers → Type 0) (s t : Callers) (r : CallerRun env c s t) → Throughout P s t r → P t
  last P s t here h = h
  last P s t (and_then u v r st) h = h.1

  run-IsSingle :
      (w : World) (t : Callers) (r : CallerRun env c (all_arriving w) t)
      → Throughout IsFresh (all_arriving w) t r
      → IsSingle t
  run-IsSingle w t here fresh = inl refl
  run-IsSingle w t (and_then u v r st) fresh =
      step-IsSingle u t (run-IsOwner (all_arriving w) u (start-IsOwner w) r)
        (last IsFresh (all_arriving w) u r fresh.0) (run-IsSingle w u r fresh.0) st

  -- Callers that arrive while a token is due share its renewal: however many there are and however they
  -- interleave, one renewal at most is completed in a run in which the token is not due any more after
  -- the first.
  pub run-one_renewal :
      (w : World) (t : Callers) (r : CallerRun env c (all_arriving w) t)
      → Throughout IsFresh (all_arriving w) t r
      → t.renewals ≤ 1
  run-one_renewal w t r fresh = at_most_one t (run-IsSingle w t r fresh)
