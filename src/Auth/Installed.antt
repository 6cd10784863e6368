-- ===== src/Auth/Installed.antt =====
-- A client with one of the auth methods of api/auth/mod.rs: its logins do not come back to the method,
-- and what a re-authentication leaves behind.
use vault_client_rs.Prelude.{
  ◌≡◌, refl, ◌∙◌, true, false, Option, none, some, [], ◌∷◌, ◌++◌, ◌⊎◌, inl, inr, arith,
  if◌then◌else◌, Bool-cases,
}
use vault_client_rs.Prelude.Text.{Text, codes}
use vault_client_rs.Json.{Json}
use vault_client_rs.VaultError.{VaultError, ReqwestError, empty_response}
use vault_client_rs.VaultResponse.{AuthInfo, VaultResponse}
use vault_client_rs.EncodePath.{encode_path}
use vault_client_rs.Client.{Overrides, VaultClient}
use vault_client_rs.Effect.{
  Env, post, Response, World, Exit, ok, err, panicked, M, pure, raise, ok_or, continue, ◌>>=◌, ◌>>◌,
}
use vault_client_rs.Request.{execute_raw}
use vault_client_rs.Request.Within.{execute_raw-Within}
use vault_client_rs.Token.{token_of, update_token_from_auth, try_re_authenticate, decoded}
use vault_client_rs.Execute.{is_login, found, exec_with_auth}
use vault_client_rs.Execute.Login.{is_login-login, execute-login}
use vault_client_rs.Auth.{
  login_path, user_login_path, log_in, Login, approle, k8s, userpass, ldap, github, jwt, aws, azure,
  gcp, login, with_method, install,
}

login_path-is_login : (mount : Text) → is_login (login_path mount) ≡ true
unfolding login_path
login_path-is_login mount = is_login-login (encode_path mount) []

user_login_path-is_login :
    (mount username : Text) → is_login (user_login_path mount username) ≡ true
unfolding user_login_path
user_login_path-is_login mount username =
    is_login-login (encode_path mount) (codes "/" ++ encode_path username)

-- Every login is a `log_in` on a login path, or an error before it.
module _ (env : Env) (waiting : World → World) (P : (VaultClient → M AuthInfo) → Type 0)
    (asks : (path : Text) (body : Option Json)
      → is_login path ≡ true
      → P (λ c. log_in env waiting c path body))
    (fails : (e : VaultError) → P (λ c. raise e)) where
  at_mount :
      (mount : Text) (body : Option Json) → P (λ c. log_in env waiting c (login_path mount) body)
  at_mount mount body = asks (login_path mount) body (login_path-is_login mount)

  for_user :
      (mount username : Text) (body : Option Json)
      → P (λ c. log_in env waiting c (user_login_path mount username) body)
  for_user mount username body =
      asks (user_login_path mount username) body (user_login_path-is_login mount username)

  pub login_induction : (l : Login) → P (λ c. login env waiting l c)
  unfolding login
  login_induction (approle role_id secret_id mount) = at_mount mount _
  login_induction (k8s role token mount) = at_mount mount _
  login_induction (userpass username password mount) = for_user mount username _
  login_induction (ldap username password mount) = for_user mount username _
  login_induction (github token mount) = at_mount mount _
  login_induction (jwt role token mount) = at_mount mount _
  login_induction (aws (inl e) mount) = fails e
  login_induction (aws (inr body) mount) = at_mount mount _
  login_induction (azure role token sub rg vm vmss mount) = at_mount mount _
  login_induction (gcp role token mount) = at_mount mount _

module _ (env : Env) (waiting : World → World) (c : VaultClient) where
  log_in-with_method :
      (o : Option (Overrides → M AuthInfo)) (path : Text) (body : Option Json) (w : World)
      → is_login path ≡ true
      → log_in env waiting (with_method o c) path body w ≡ log_in env waiting c path body w
  unfolding log_in exec_with_auth
  log_in-with_method o path body w h =
      simp
        (
          execute-login env waiting (with_method o c) post path body w h,
          execute-login env waiting c post path body w h,
        )
        (unfold execute_raw update_token_from_auth in refl)

  -- A login behaves alike whatever auth method its client has: it never calls the method, so
  -- re-authentication does not recurse.
  pub login-with_method :
      (l : Login) (o : Option (Overrides → M AuthInfo)) (w : World)
      → login env waiting l (with_method o c) w ≡ login env waiting l c w
  login-with_method l o w =
      login_induction env waiting (λ m. m (with_method o c) w ≡ m c w)
        (λ path body h. log_in-with_method o path body w h) (λ e. refl) l

-- The state after a login that returned `auth`.
pub record IsLoggedIn (c : VaultClient) (auth : AuthInfo) (w w' : World) : Type 0 where
  pub token : w'.token ≡ some (token_of w'.now auth)
  pub token_poisoned : w'.token_poisoned ≡ false
  pub token_changes :
      w'.token_changes
      ≡ (if c.inner.on_token_changed then auth ∷ w.token_changes else w.token_changes)

-- Nothing is said of a login that failed.
abbrev pub LoginPost : VaultClient → World → Exit AuthInfo × World → Type 0
LoginPost c w (ok auth, w') = IsLoggedIn c auth w w'
LoginPost c w (err e, w') = Unit
LoginPost c w (panicked, w') = Unit

LoginPost-continue :
    {A : Type 0} (c : VaultClient) (w : World) (r : Exit A) (f : A → M AuthInfo) (w' : World)
    → ((a : A) → LoginPost c w (f a w'))
    → LoginPost c w (continue r f w')
LoginPost-continue c w (ok a) f w' q = q a
LoginPost-continue c w (err e) f w' q = tt
LoginPost-continue c w panicked f w' q = tt

store-LoginPost :
    (c : VaultClient) (auth : AuthInfo) (w w' : World)
    → w'.token_changes ≡ w.token_changes
    → LoginPost c w ((update_token_from_auth c auth >> λ x. (ok auth, x)) w')
unfolding update_token_from_auth
store-LoginPost c auth w w' same = elim (Bool-cases w'.token_poisoned) [
  | inl p ↦ simp p tt
  | inr p ↦ simp p (ground arith)
]

envelope-token_changes :
    (path : Text) (read : Response → ReqwestError ⊎ VaultResponse Json) (r : Exit Response)
    (w : World)
    → (continue r (λ resp. found path resp >> decoded (read resp)) w).1.token_changes
      ≡ w.token_changes
unfolding found
envelope-token_changes path read (ok resp) w = ground (arith, read resp)
envelope-token_changes path read (err e) w = refl
envelope-token_changes path read panicked w = refl

module _ (env : Env) (waiting : World → World) (c : VaultClient) where
  exec-token_changes :
      (path : Text) (body : Option Json) (w : World)
      → is_login path ≡ true
      → (exec_with_auth env waiting c env.json_value post path body w).1.token_changes
        ≡ w.token_changes
  unfolding exec_with_auth
  exec-token_changes path body w h = simp (execute-login env waiting c post path body w h) (
      envelope-token_changes path env.json_value (execute_raw env c post path body w).0
        (execute_raw env c post path body w).1
      ∙ (execute_raw-Within env c post path body w).0.token_changes)

  auth-LoginPost :
      (o : Option AuthInfo) (w w' : World)
      → w'.token_changes ≡ w.token_changes
      → LoginPost c w
          ((do auth ← ok_or o empty_response; update_token_from_auth c auth; pure auth) w')
  auth-LoginPost none w w' same = tt
  auth-LoginPost (some auth) w w' same = store-LoginPost c auth w w' same

  log_in-LoginPost :
      (path : Text) (body : Option Json) (w : World)
      → is_login path ≡ true
      → LoginPost c w (log_in env waiting c path body w)
  unfolding log_in
  log_in-LoginPost path body w h =
      let (r, w') = exec_with_auth env waiting c env.json_value post path body w in
      LoginPost-continue c w r _ w'
        λ resp. auth-LoginPost resp.auth w w' (exec-token_changes path body w h)

  -- A login that returns an `AuthInfo` has stored its token and called the callback once.
  pub login-LoginPost : (l : Login) (w : World) → LoginPost c w (login env waiting l c w)
  login-LoginPost l w =
      login_induction env waiting (λ m. LoginPost c w (m c w))
        (λ path body h. log_in-LoginPost path body w h) (λ e. tt) l

-- What a re-authentication leaves: the token of the login, and the callback called twice with it.
abbrev pub RenewedPost : VaultClient → World → Exit (Unit {0}) × World → Type 0
RenewedPost c w (ok tt, w') =
    (auth : AuthInfo) × (w'.token ≡ some (token_of w'.now auth))
    × (w'.token_changes
        ≡ (if c.inner.on_token_changed then auth ∷ auth ∷ w.token_changes else w.token_changes))
RenewedPost c w (err e, w') = Unit
RenewedPost c w (panicked, w') = Unit

update-RenewedPost :
    (c : VaultClient) (w : World) (x : Exit AuthInfo × World)
    → LoginPost (with_method none c) w x
    → RenewedPost c w (continue x.0 (λ auth. update_token_from_auth c auth) x.1)
unfolding update_token_from_auth
update-RenewedPost c w (ok auth, w') h =
    simp h.token_poisoned (auth, refl, ground (arith, h.token_changes))
update-RenewedPost c w (err e, w') h = tt
update-RenewedPost c w (panicked, w') h = tt

-- A re-authentication by an installed login that succeeds stores the token of that login. It calls the
-- callback for token changes twice with it, not once: the login has stored the token already.
pub re_authenticate-twice :
    (env : Env) (waiting : World → World) (l : Login) (c : VaultClient) (w : World)
    → RenewedPost c w (try_re_authenticate (install env waiting l c) w)
unfolding try_re_authenticate install
re_authenticate-twice env waiting l c w =
    update-RenewedPost c w (login env waiting l (with_method none c) w)
      (login-LoginPost env waiting (with_method none c) l w)
