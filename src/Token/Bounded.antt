-- ===== src/Token/Bounded.antt =====
-- How many requests the upkeep of the token in client/async_client.rs may send.
use vault_client_rs.Prelude.{
  ℕ, ◌+◌, ◌≤◌, ◌≡◌, ◌≢◌, refl, Bool, true, false, ◌⊎◌, inl, inr, Option, none, some, length, arith,
  is_some, Bool-cases,
}
use vault_client_rs.Prelude.Text.{Text, codes}
use vault_client_rs.Json.{Json}
use vault_client_rs.VaultError.{ReqwestError}
use vault_client_rs.VaultResponse.{AuthInfo}
use vault_client_rs.Client.{Overrides, VaultClient}
use vault_client_rs.Effect.{
  Env, Method, post, Response, World, Exit, ok, err, panicked, M, continue, ◌>>=◌,
}
use vault_client_rs.Request.{read_token, execute_raw}
use vault_client_rs.Request.Within.{budget, IsAnswer, execute_raw-Within}
use vault_client_rs.Token.{
  Action, proceed, re_auth, renew, action_for, still_needed, update_token_from_auth, update_if,
  decoded, re_authenticate_by, try_re_authenticate, renew_token_via_api, fall_back, renew_if,
  renew_locked, act, ensure_valid_token,
}

-- An action that was run from `w` did not panic, did not turn the clock back, and sent at most `k`
-- requests.
pub record IsBounded {A : Type 0} (k : ℕ) (w : World) (x : Exit A × World) : Type 0 where
  pub returns : x.0 ≢ panicked
  pub clock : w.now ≤ x.1.now
  pub more : length w.sent ≤ length x.1.sent
  pub fewer : length x.1.sent ≤ length w.sent + k

-- The rule for a bind.
pub IsBounded-continue :
    {A B : Type 0} (j k : ℕ) (w : World) (r : Exit A) (w' : World) (f : A → M B)
    → IsBounded j w (r, w')
    → ((a : A) → IsBounded k w' (f a w'))
    → IsBounded (j + k) w (continue r f w')
IsBounded-continue j k w (ok a) w' f h q = ground (arith, q a)
IsBounded-continue j k w (err e) w' f h q = ground arith
IsBounded-continue j k w panicked w' f h q = absurd (h.returns refl)

pub IsBounded-bind :
    {A B : Type 0} (j k : ℕ) (w : World) (m : M A) (f : A → M B)
    → IsBounded j w (m w)
    → ((a : A) (w' : World) → IsBounded k w' (f a w'))
    → IsBounded (j + k) w ((m >>= f) w)
IsBounded-bind j k w m f h q = let (r, w') = m w in IsBounded-continue j k w r w' f h (λ a. q a w')

pub IsBounded-weaken :
    {A : Type 0} (i n : ℕ) (w : World) (x : Exit A × World)
    → i ≤ n
    → IsBounded i w x
    → IsBounded n w x
IsBounded-weaken i n w x le h = ground arith

read_token-IsBounded : (w : World) → IsBounded 0 w (read_token w)
unfolding read_token
read_token-IsBounded w = ground arith

IsAnswer-ne_panicked : (r : Exit Response) → IsAnswer r → r ≢ panicked
IsAnswer-ne_panicked (ok resp) h e = cc
IsAnswer-ne_panicked (err x) h e = cc
IsAnswer-ne_panicked panicked h e = h

pub execute_raw-IsBounded :
    (env : Env) (c : VaultClient) (method : Method) (path : Text) (body : Option Json) (w : World)
    → IsBounded (budget env c) w (execute_raw env c method path body w)
execute_raw-IsBounded env c method path body w =
    let (h, a) = execute_raw-Within env c method path body w in
    record { returns = IsAnswer-ne_panicked _ a; clock = h.clock; more = h.more; fewer = h.fewer }

pub update_token-IsBounded :
    (c : VaultClient) (auth : AuthInfo) (w : World)
    → IsBounded 0 w (update_token_from_auth c auth w)
unfolding update_token_from_auth
update_token-IsBounded c auth w = ground arith

update_if-IsBounded :
    (c : VaultClient) (auth : Option AuthInfo) (w : World) → IsBounded 0 w (update_if c auth w)
unfolding update_if
update_if-IsBounded c none w = ground arith
update_if-IsBounded c (some auth) w = update_token-IsBounded c auth w

pub decoded-IsBounded :
    {T : Type 0} (o : ReqwestError ⊎ T) (w : World) → IsBounded 0 w (decoded o w)
decoded-IsBounded (inl e) w = ground arith
decoded-IsBounded (inr t) w = ground arith

-- A login of the configured method sends at most `k` requests, and other callers let the waiting one
-- see at most `j`; neither panics.
pub record IsCooperative (j k : ℕ) (waiting : World → World) (c : VaultClient) : Type 0 where
  pub waits : (w : World) → IsBounded {A = Unit {0}} j w (ok tt, waiting w)
  pub logs_in :
      (m : Overrides → M AuthInfo) (w : World)
      → c.inner.auth_method ≡ some m
      → IsBounded k w (m c.view w)

module _ (env : Env) (j k : ℕ) (waiting : World → World) (c : VaultClient)
    (co : IsCooperative j k waiting c) where
  renew_token-IsBounded : (w : World) → IsBounded (budget env c) w (renew_token_via_api env c w)
  unfolding renew_token_via_api
  renew_token-IsBounded w =
      let path = codes "auth/token/renew-self" in
      IsBounded-weaken (budget env c + (0 + 0)) _ w _ (omega arith) (
        IsBounded-bind (budget env c) (0 + 0) w (execute_raw env c post path none) _
          (execute_raw-IsBounded env c post path none w)
          λ resp w'.
            IsBounded-bind 0 0 w' (decoded (env.json_value resp)) _
              (decoded-IsBounded (env.json_value resp) w')
              λ v w''. update_if-IsBounded c v.auth w'')

  re_authenticate_by-IsBounded :
      (o : Option (Overrides → M AuthInfo)) (w : World)
      → c.inner.auth_method ≡ o
      → IsBounded k w (re_authenticate_by o c w)
  unfolding re_authenticate_by
  re_authenticate_by-IsBounded none w e = ground arith
  re_authenticate_by-IsBounded (some m) w e = IsBounded-weaken (k + 0) k w _ (omega arith) (
      IsBounded-bind k 0 w (m c.view) _ (co.logs_in m w e)
        λ auth w'. update_token-IsBounded c auth w')

  try_re_authenticate-IsBounded : (w : World) → IsBounded k w (try_re_authenticate c w)
  unfolding try_re_authenticate
  try_re_authenticate-IsBounded w = re_authenticate_by-IsBounded c.inner.auth_method w refl

  fall_back-IsBounded :
      (r : Exit (Unit {0})) (w : World) → r ≢ panicked → IsBounded k w (fall_back c r w)
  unfolding fall_back
  fall_back-IsBounded (ok tt) w h = ground arith
  fall_back-IsBounded (err e) w h = elim (Bool-cases (is_some c.inner.auth_method)) [
    | inl s ↦ rw s (try_re_authenticate-IsBounded w)
    | inr s ↦ rw s (ground arith)
  ]
  fall_back-IsBounded panicked w h = absurd (h refl)

  chained :
      (i n : ℕ) (w : World) (r : Exit (Unit {0})) (w' : World) (x : Exit (Unit {0}) × World)
      → IsBounded i w (r, w')
      → IsBounded n w' x
      → IsBounded (i + n) w x
  chained i n w r w' x h q = ground arith

  renew_if-IsBounded : (b : Bool) (w : World) → IsBounded (budget env c + k) w (renew_if env c b w)
  unfolding renew_if
  renew_if-IsBounded false w = ground arith
  renew_if-IsBounded true w =
      let (r, w') = renew_token_via_api env c w in
      let h = renew_token-IsBounded w in
      chained (budget env c) k w r w' (fall_back c r w') h (fall_back-IsBounded r w' h.returns)

  renew_locked-IsBounded : (w : World) → IsBounded (budget env c + k) w (renew_locked env c w)
  unfolding renew_locked
  renew_locked-IsBounded w = IsBounded-weaken (0 + (budget env c + k)) _ w _ (omega arith) (
      IsBounded-bind 0 (budget env c + k) w read_token _ (read_token-IsBounded w)
        λ token w'. renew_if-IsBounded (still_needed env w.now token) w')

  act-IsBounded :
      (a : Action) (w : World) → IsBounded (j + (budget env c + k)) w (act env waiting c a w)
  unfolding act
  act-IsBounded proceed w = ground arith
  act-IsBounded re_auth w = IsBounded-weaken k _ w _ (omega arith) (try_re_authenticate-IsBounded w)
  act-IsBounded renew w =
      chained j (budget env c + k) w (ok tt) (waiting w) _ (co.waits w)
        (renew_locked-IsBounded (waiting w))

  -- Keeping the token valid never panics, and sends at most one renewal with its retries and one
  -- login, beside what other callers send while this one waits for them.
  pub ensure_valid_token-IsBounded :
      (w : World) → IsBounded (j + (budget env c + k)) w (ensure_valid_token env waiting c w)
  unfolding ensure_valid_token
  ensure_valid_token-IsBounded w =
      IsBounded-weaken (0 + (j + (budget env c + k))) _ w _ (omega arith) (
        IsBounded-bind 0 (j + (budget env c + k)) w read_token _ (read_token-IsBounded w)
          λ token w'. act-IsBounded (action_for env w.now (is_some c.inner.auth_method) token) w')
