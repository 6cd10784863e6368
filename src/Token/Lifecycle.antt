-- ===== src/Token/Lifecycle.antt =====
-- What `ensure_valid_token` of client/async_client.rs does in each situation.
use vault_client_rs.Prelude.{◌≡◌, refl, ap, ◌∙◌, true, false, none, some, is_some}
use vault_client_rs.VaultError.{VaultError}
use vault_client_rs.VaultResponse.{AuthInfo}
use vault_client_rs.Client.{Overrides, VaultClient}
use vault_client_rs.Effect.{Env, World, TokenState, Exit, ok, err, M}
use vault_client_rs.Token.{
  token_of, update_token_from_auth, token_needs_renewal, still_needed, Action, renew, action_for,
  re_authenticate_by, try_re_authenticate, renew_token_via_api, fall_back, renew_if, renew_locked,
  act, ensure_valid_token,
}

abbrev action : Env → VaultClient → World → Action
action env c w = action_for env w.now (is_some c.inner.auth_method) w.token

ensure_valid_token-act :
    (env : Env) (waiting : World → World) (c : VaultClient) (w : World)
    → w.token_poisoned ≡ false
    → ensure_valid_token env waiting c w ≡ act env waiting c (action env c w) w
unfolding ensure_valid_token
ensure_valid_token-act env waiting c w p = simp p

action-renew :
    (env : Env) (c : VaultClient) (w : World) (ts : TokenState)
    → w.token ≡ some ts
    → token_needs_renewal env w.now ts ≡ true
    → ts.renewable ≡ true
    → action env c w ≡ renew
unfolding action_for
action-renew env c w ts t f r = rw (t, f, r)

renew_locked-fresh :
    (env : Env) (c : VaultClient) (w : World)
    → w.token_poisoned ≡ false
    → still_needed env w.now w.token ≡ false
    → renew_locked env c w ≡ (ok tt, w)
unfolding renew_locked
renew_locked-fresh env c w p s = simp (p, s)

renew_locked-stale :
    (env : Env) (c : VaultClient) (w w' : World) (r : Exit (Unit {0}))
    → w.token_poisoned ≡ false
    → still_needed env w.now w.token ≡ true
    → renew_token_via_api env c w ≡ (r, w')
    → renew_locked env c w ≡ fall_back c r w'
unfolding renew_locked renew_if
renew_locked-stale env c w w' r p s e = simp (p, s, e)

fall_back-err :
    (c : VaultClient) (m : Overrides → M AuthInfo) (e : VaultError) (auth : AuthInfo) (w w' : World)
    → c.inner.auth_method ≡ some m
    → m c.view w ≡ (ok auth, w')
    → fall_back c (err e) w ≡ update_token_from_auth c auth w'
unfolding fall_back try_re_authenticate re_authenticate_by
fall_back-err c m e auth w w' a l = simp (a, l)

fall_back-none :
    (c : VaultClient) (e : VaultError) (w : World)
    → c.inner.auth_method ≡ none
    → fall_back c (err e) w ≡ (err e, w)
unfolding fall_back
fall_back-none c e w a = simp a

module _ (env : Env) (waiting : World → World) (c : VaultClient) (w : World) where
  -- A readable token that is not due for renewal is used as it is: no request, no change.
  pub ensure_valid_token-fresh :
      (ts : TokenState)
      → w.token_poisoned ≡ false
      → w.token ≡ some ts
      → token_needs_renewal env w.now ts ≡ false
      → ensure_valid_token env waiting c w ≡ (ok tt, w)
  unfolding ensure_valid_token
  ensure_valid_token-fresh ts p t f = rw (p, t, f)

  -- A caller with a token that is due and renewable, that finds a readable token no longer due when it
  -- gets the renewal lock, sends nothing: the world is the one that the others left.
  pub ensure_valid_token-shared :
      (ts : TokenState)
      → w.token_poisoned ≡ false
      → w.token ≡ some ts
      → token_needs_renewal env w.now ts ≡ true
      → ts.renewable ≡ true
      → (waiting w).token_poisoned ≡ false
      → still_needed env (waiting w).now (waiting w).token ≡ false
      → ensure_valid_token env waiting c w ≡ (ok tt, waiting w)
  ensure_valid_token-shared ts p t f r q s =
      ensure_valid_token-act env waiting c w p
      ∙ (ap (λ a. act env waiting c a w) (action-renew env c w ts t f r)
          ∙ unfold act in renew_locked-fresh env c (waiting w) q s)

  due :
      (ts : TokenState) (e : VaultError) (w1 : World)
      → w.token_poisoned ≡ false
      → w.token ≡ some ts
      → token_needs_renewal env w.now ts ≡ true
      → ts.renewable ≡ true
      → (waiting w).token_poisoned ≡ false
      → still_needed env (waiting w).now (waiting w).token ≡ true
      → renew_token_via_api env c (waiting w) ≡ (err e, w1)
      → ensure_valid_token env waiting c w ≡ fall_back c (err e) w1
  due ts e w1 p t f r q s n =
      let locked = renew_locked-stale env c (waiting w) w1 (err e) q s n in
      ensure_valid_token-act env waiting c w p
      ∙ (ap (λ a. act env waiting c a w) (action-renew env c w ts t f r) ∙ unfold act in locked)

  -- A renewal that fails, for a token that is due and renewable: without an auth method the caller gets
  -- the error of the renewal.
  pub ensure_valid_token-fails :
      (ts : TokenState) (e : VaultError) (w1 : World)
      → w.token_poisoned ≡ false
      → w.token ≡ some ts
      → token_needs_renewal env w.now ts ≡ true
      → ts.renewable ≡ true
      → (waiting w).token_poisoned ≡ false
      → still_needed env (waiting w).now (waiting w).token ≡ true
      → renew_token_via_api env c (waiting w) ≡ (err e, w1)
      → c.inner.auth_method ≡ none
      → ensure_valid_token env waiting c w ≡ (err e, w1)
  ensure_valid_token-fails ts e w1 p t f r q s n a =
      due ts e w1 p t f r q s n ∙ fall_back-none c e w1 a

  -- A renewal that fails, for a token that is due and renewable, with an auth method that then logs in
  -- and a token lock that is not poisoned: the token becomes the one of that login, and the caller sees
  -- no error.
  pub ensure_valid_token-falls_back :
      (ts : TokenState) (e : VaultError) (w1 : World) (m : Overrides → M AuthInfo) (auth : AuthInfo)
      (w2 : World)
      → w.token_poisoned ≡ false
      → w.token ≡ some ts
      → token_needs_renewal env w.now ts ≡ true
      → ts.renewable ≡ true
      → (waiting w).token_poisoned ≡ false
      → still_needed env (waiting w).now (waiting w).token ≡ true
      → renew_token_via_api env c (waiting w) ≡ (err e, w1)
      → c.inner.auth_method ≡ some m
      → m c.view w1 ≡ (ok auth, w2)
      → w2.token_poisoned ≡ false
      → ((ensure_valid_token env waiting c w).0 ≡ ok tt)
        × ((ensure_valid_token env waiting c w).1.token ≡ some (token_of w2.now auth))
  ensure_valid_token-falls_back ts e w1 m auth w2 p t f r q s n a l x =
      rw (due ts e w1 p t f r q s n, fall_back-err c m e auth w1 w2 a l)
        (unfold update_token_from_auth in simp x (refl, refl))
