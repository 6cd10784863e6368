-- ===== src/Effect.antt =====
-- What a client touches: the state behind its `Arc` (client/async_client.rs), the clock, the network
-- and the random numbers. An operation is an action of `M`; what it wrote before an error stays.
mod External
pub use External.{Method, get, post, put, delete, patch, list, Request, Response, Env}
unfoldable pub use External.{extract_errors}
use vault_client_rs.Prelude.{
  ℕ, ◌+◌, Bool, Option, none, some, List, ◌∷◌, ◌⊎◌, length, ◌==◌, if◌then◌else◌,
}
use vault_client_rs.Prelude.Text.{Text}
use vault_client_rs.VaultError.{VaultError, ReqwestError}
use vault_client_rs.CircuitBreaker.{CircuitBreaker}
use vault_client_rs.VaultResponse.{AuthInfo}
use External.{Request, Response, Env}

-- `TokenState`; an instant and a duration are in nanoseconds.
pub record TokenState : Type 0 where
  pub value : Text
  pub expires_at : Option ℕ
  pub renewable : Bool
  pub lease_duration : ℕ

-- The mutable state of a `VaultClientInner`, and what has happened outside: requests sent, sleeps and
-- calls of the token callback, the newest first.
pub record World : Type 0 where
  pub now : ℕ
  pub token : Option TokenState
  pub token_poisoned : Bool
  pub circuit_breaker : Option CircuitBreaker
  pub sent : List Request
  pub sleeps : List ℕ
  pub draws : ℕ
  pub token_changes : List AuthInfo

-- `panicked` stands for a Rust panic.
pub data Exit {ℓ} (A : Type ℓ) : Type ℓ where
  ok : A → Exit A
  err : VaultError → Exit A
  panicked : Exit A

abbrev pub M : Type 0 → Type 0
M A = World → Exit A × World

module _ {A : Type 0} where
  abbrev pub pure : A → M A
  pure a w = (ok a, w)

  abbrev pub raise : VaultError → M A
  raise e w = (err e, w)

  abbrev pub gets : (World → A) → M A
  gets f w = (ok (f w), w)

  -- `Option::ok_or`.
  abbrev pub ok_or : Option A → VaultError → M A
  ok_or (some a) e w = (ok a, w)
  ok_or none e w = (err e, w)

module _ {A B : Type 0} where
  abbrev pub continue : Exit A → (A → M B) → M B
  continue (ok a) f w = f a w
  continue (err e) f w = (err e, w)
  continue panicked f w = (panicked, w)

  infixl 5 ◌>>=◌ ◌>>◌
  abbrev pub ◌>>=◌ : M A → (A → M B) → M B
  ◌>>=◌ m f w = let (r, w') = m w in continue r f w'

  abbrev pub ◌>>◌ : M A → M B → M B
  ◌>>◌ m k w = let (r, w') = m w in continue r (λ _. k) w'

-- `tokio::time::sleep(d).await`.
unfoldable pub sleep : ℕ → M (Unit {0})
sleep d w = (ok tt, record w { now = w.now + d; sleeps = d ∷ w.sleeps })

-- `rand::rng().random_range(0..n)`, which panics on an empty range.
unfoldable pub random_range : Env → ℕ → M ℕ
random_range env n w =
    if n == 0
    then (panicked, w)
    else (ok (env.random_range w.draws n), record w { draws = w.draws + 1 })

-- `req.send().await`.
unfoldable pub send : Env → Request → World → (ReqwestError ⊎ Response) × World
send env req w =
    let n = length w.sent in
    (env.send n req, record w { now = w.now + env.latency n; sent = req ∷ w.sent })
