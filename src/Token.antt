-- ===== src/Token.antt =====
-- client/async_client.rs: the token's lifecycle, run by one caller. What other callers do to the
-- shared state while this one waits for `renewal_lock` is the argument `waiting`.
pub mod Freshness
pub mod Lifecycle
pub mod Bounded
pub mod Callers
pub mod Exclusive
use vault_client_rs.Prelude.{
  ℕ, ◌+◌, Bool, true, false, not, Option, none, some, ◌∷◌, ◌⊎◌, inl, inr, ltb, leb, is_some,
  if◌then◌else◌,
}
use vault_client_rs.Prelude.Text.{Text, codes}
use vault_client_rs.Prelude.Time.{from_secs, checked_add}
use vault_client_rs.VaultError.{ReqwestError, http, lock_poisoned, auth_required}
use vault_client_rs.VaultResponse.{AuthInfo}
use vault_client_rs.Client.{Overrides, VaultClient}
use vault_client_rs.Effect.{
  Env, post, World, TokenState, Exit, ok, err, panicked, M, pure, raise, ◌>>=◌, ◌>>◌,
}
use vault_client_rs.Request.{read_token, execute_raw}

-- `set_token`.
unfoldable pub set_token : Text → M (Unit {0})
set_token value w = if w.token_poisoned then (err lock_poisoned, w) else (
  ok tt,
  record w {
    token =
        some (record { value = value; expires_at = none; renewable = false; lease_duration = 0 });
  },
)

-- The token that an `AuthInfo` received at `now` gives.
unfoldable pub token_of : ℕ → AuthInfo → TokenState
unfolding checked_add
token_of now auth = record {
  value = auth.client_token;
  expires_at =
      (if ltb 0 auth.lease_duration then checked_add now (from_secs auth.lease_duration) else none);
  renewable = auth.renewable;
  lease_duration = from_secs auth.lease_duration;
}

unfoldable pub update_token_from_auth : VaultClient → AuthInfo → M (Unit {0})
unfolding token_of
update_token_from_auth c auth w = if w.token_poisoned then (err lock_poisoned, w) else (
  ok tt,
  record w {
    token = some (token_of w.now auth);
    token_changes = (if c.inner.on_token_changed then auth ∷ w.token_changes else w.token_changes);
  },
)

-- `expires_at` is none for a root token or one with no expiry.
unfoldable pub token_needs_renewal : Env → ℕ → TokenState → Bool
token_needs_renewal env now ts = elim ts.expires_at [
  | some expires ↦ leb expires (now + env.mul_f64 20 ts.lease_duration)
  | none ↦ false
]

-- `guard.as_ref().is_some_and(Self::token_needs_renewal)`.
unfoldable pub still_needed : Env → ℕ → Option TokenState → Bool
unfolding token_needs_renewal
still_needed env now none = false
still_needed env now (some ts) = token_needs_renewal env now ts

-- `Action`, with its `Ok` spelled `proceed`.
pub data Action : Type 0 where
  proceed re_auth renew : Action

unfoldable pub action_for : Env → ℕ → Bool → Option TokenState → Action
unfolding token_needs_renewal
action_for env now has_method none = if has_method then re_auth else proceed
action_for env now has_method (some ts) =
    if not (token_needs_renewal env now ts)
    then proceed
    else if ts.renewable
    then renew
    else if has_method
    then re_auth
    else proceed

re_authenticate_by : Option (Overrides → M AuthInfo) → VaultClient → M (Unit {0})
unfolding update_token_from_auth
re_authenticate_by none c = raise auth_required
re_authenticate_by (some method) c = do auth ← method c.view; update_token_from_auth c auth

unfoldable pub try_re_authenticate : VaultClient → M (Unit {0})
unfolding re_authenticate_by
try_re_authenticate c = re_authenticate_by c.inner.auth_method c

-- A decoded response, or `VaultError::Http` from `?`.
abbrev pub decoded : {T : Type 0} → ReqwestError ⊎ T → M T
decoded (inl e) = raise (http e)
decoded (inr t) = pure t

update_if : VaultClient → Option AuthInfo → M (Unit {0})
unfolding update_token_from_auth
update_if c none = pure tt
update_if c (some auth) = update_token_from_auth c auth

unfoldable pub renew_token_via_api : Env → VaultClient → M (Unit {0})
unfolding update_if
renew_token_via_api env c = do
  raw_resp ← execute_raw env c post (codes "auth/token/renew-self") none
  resp ← decoded (env.json_value raw_resp)
  update_if c resp.auth

-- The match on the renewal's result: fall back to re-authentication where a method is configured.
fall_back : VaultClient → Exit (Unit {0}) → M (Unit {0})
unfolding try_re_authenticate
fall_back c (ok tt) w = (ok tt, w)
fall_back c (err e) w = if is_some c.inner.auth_method then try_re_authenticate c w else (err e, w)
fall_back c panicked w = (panicked, w)

unfoldable pub renew_if : Env → VaultClient → Bool → M (Unit {0})
unfolding fall_back renew_token_via_api
renew_if env c false w = (ok tt, w)
renew_if env c true w = let (r, w') = renew_token_via_api env c w in fall_back c r w'

-- Under the renewal lock: check again, then renew.
unfoldable pub renew_locked : Env → VaultClient → M (Unit {0})
unfolding renew_if still_needed read_token
renew_locked env c w = (do token ← read_token; renew_if env c (still_needed env w.now token)) w

act : Env → (World → World) → VaultClient → Action → M (Unit {0})
unfolding renew_locked try_re_authenticate
act env waiting c proceed = pure tt
act env waiting c re_auth = try_re_authenticate c
act env waiting c renew = λ w. renew_locked env c (waiting w)

unfoldable pub ensure_valid_token : Env → (World → World) → VaultClient → M (Unit {0})
unfolding act action_for read_token
ensure_valid_token env waiting c w =
    (do
      token ← read_token
      act env waiting c (action_for env w.now (is_some c.inner.auth_method) token))
      w
