-- ===== src/Execute/Bounded.antt =====
-- How many requests one call of client/async_client.rs may send, the upkeep of the token included, and
-- what the `exec_*` functions make of a response.
use vault_client_rs.Prelude.{
  ℕ, ◌+◌, Bool, true, false, ◌⊎◌, Option, none, some, inl, inr, ◌==◌, Bool-cases, arith,
}
use vault_client_rs.Prelude.Text.{Text}
use vault_client_rs.Json.{Json}
use vault_client_rs.VaultError.{VaultError, ReqwestError, empty_response}
use vault_client_rs.VaultResponse.{VaultResponse}
use vault_client_rs.Client.{VaultClient}
use vault_client_rs.Effect.{Env, Method, patch, Response, World, M, ok_or, ◌>>=◌, ◌>>◌}
use vault_client_rs.Request.Within.{budget}
use vault_client_rs.Token.{decoded}
use vault_client_rs.Token.Bounded.{
  IsBounded, IsCooperative, IsBounded-bind, IsBounded-weaken, execute_raw-IsBounded,
  decoded-IsBounded, ensure_valid_token-IsBounded,
}
use vault_client_rs.Execute.{
  is_login, ensure_unless, found, execute, exec_with_data, exec_with_auth, exec_patch, exec_empty,
  exec_direct, list_of, exec_list,
}

pub ok_or-IsBounded :
    {T : Type 0} (o : Option T) (e : VaultError) (w : World) → IsBounded 0 w (ok_or o e w)
ok_or-IsBounded none e w = ground arith
ok_or-IsBounded (some t) e w = ground arith

pub found-IsBounded :
    (path : Text) (resp : Response) (w : World) → IsBounded 0 w (found path resp w)
unfolding found
found-IsBounded path resp w = ground arith

module _ (env : Env) (j k : ℕ) (waiting : World → World) (c : VaultClient)
    (co : IsCooperative j k waiting c) where
  -- Two requests with their retries, a login, and what others send meanwhile.
  abbrev pub whole : ℕ
  whole = j + (budget env c + k) + budget env c

  ensure_unless-IsBounded :
      (b : Bool) (w : World)
      → IsBounded (j + (budget env c + k)) w (ensure_unless b env waiting c w)
  unfolding ensure_unless
  ensure_unless-IsBounded true w = ground arith
  ensure_unless-IsBounded false w = ensure_valid_token-IsBounded env j k waiting c co w

  execute-IsBounded :
      (method : Method) (path : Text) (body : Option Json) (w : World)
      → IsBounded whole w (execute env waiting c method path body w)
  unfolding execute
  execute-IsBounded method path body w =
      IsBounded-bind (j + (budget env c + k)) (budget env c) w
        (ensure_unless (is_login path) env waiting c) _ (ensure_unless-IsBounded (is_login path) w)
        λ _ w'. execute_raw-IsBounded env c method path body w'

  -- A call for data never panics, and sends at most one request, one renewal and one login, each with
  -- its retries, beside what other callers send while it waits for them, if the auth method's login does
  -- not panic and sends at most `k` requests, and the other callers at most `j`.
  pub exec_with_data-IsBounded :
      {T : Type 0} (deserialize : Response → ReqwestError ⊎ VaultResponse T) (method : Method)
      (path : Text) (body : Option Json) (w : World)
      → IsBounded whole w (exec_with_data env waiting c deserialize method path body w)
  unfolding exec_with_data
  exec_with_data-IsBounded deserialize method path body w =
      IsBounded-weaken (whole + (0 + (0 + 0))) whole w _ (omega arith) (
        IsBounded-bind whole (0 + (0 + 0)) w (execute env waiting c method path body) _
          (execute-IsBounded method path body w)
          λ resp w'.
            IsBounded-bind 0 (0 + 0) w' (found path resp) _ (found-IsBounded path resp w') λ _ w''.
              IsBounded-bind 0 0 w'' (decoded (deserialize resp)) _
                (decoded-IsBounded (deserialize resp) w'')
                λ envelope w3. ok_or-IsBounded envelope.data_field empty_response w3)

  -- A request, the check for a 404, and more that sends nothing.
  looked_up :
      {A : Type 0} (method : Method) (path : Text) (body : Option Json) (w : World)
      (more : Response → M A)
      → ((resp : Response) (w' : World) → IsBounded 0 w' (more resp w'))
      → IsBounded whole w ((execute env waiting c method path body >>= more) w)
  looked_up method path body w more h = IsBounded-weaken (whole + 0) whole w _ (omega arith) (
      IsBounded-bind whole 0 w (execute env waiting c method path body) more
        (execute-IsBounded method path body w) h)

  envelope-IsBounded :
      {T : Type 0} (o : ReqwestError ⊎ VaultResponse T) (w : World)
      → IsBounded 0 w ((do envelope ← decoded o; ok_or envelope.data_field empty_response) w)
  envelope-IsBounded o w =
      IsBounded-bind 0 0 w (decoded o) _ (decoded-IsBounded o w)
        λ envelope w'. ok_or-IsBounded envelope.data_field empty_response w'

  after_found :
      {A : Type 0} (path : Text) (more : M A)
      → ((w : World) → IsBounded 0 w (more w))
      → (resp : Response) (w : World) → IsBounded 0 w ((found path resp >> more) w)
  after_found path more h resp w =
      IsBounded-bind 0 0 w (found path resp) (λ _. more) (found-IsBounded path resp w)
        (λ _ w'. h w')

  list_of-IsBounded : (resp : Response) (w : World) → IsBounded 0 w (list_of env waiting c resp w)
  unfolding list_of
  list_of-IsBounded resp w = elim (Bool-cases (resp.status == 404)) [
    | inl q ↦ rw q (ground arith)
    | inr q ↦ rw q (
        IsBounded-bind 0 0 w (decoded (env.json_list resp)) _
          (decoded-IsBounded (env.json_list resp) w) λ envelope w'. ground arith)
  ]

  -- None of the `exec_*` functions panics, and each sends at most one request, one renewal and one
  -- login, each with its retries, beside what other callers send while it waits for them, if the auth
  -- method's login does not panic and sends at most `k` requests, and the other callers at most `j`.
  pub exec_all-IsBounded :
      {T : Type 0} (deserialize : Response → ReqwestError ⊎ VaultResponse T)
      (direct : Response → ReqwestError ⊎ T) (method : Method) (path : Text) (body : Option Json)
      (merge : Json) (w : World)
      → IsBounded whole w (exec_with_data env waiting c deserialize method path body w)
        × IsBounded whole w (exec_with_auth env waiting c deserialize method path body w)
        × IsBounded whole w (exec_patch env waiting c deserialize path merge w)
        × IsBounded whole w (exec_empty env waiting c method path body w)
        × IsBounded whole w (exec_direct env waiting c direct method path body w)
        × IsBounded whole w (exec_list env waiting c path w)
  unfolding exec_with_data exec_with_auth exec_patch exec_empty exec_direct exec_list
  exec_all-IsBounded deserialize direct method path body merge w = (
    exec_with_data-IsBounded deserialize method path body w,
    looked_up method path body w _
        (λ resp. after_found path _ (decoded-IsBounded (deserialize resp)) resp),
    looked_up patch path (some merge) w _
        (λ resp. after_found path _ (envelope-IsBounded (deserialize resp)) resp),
    looked_up method path body w _ (λ resp. found-IsBounded path resp),
    looked_up method path body w _ (λ resp. decoded-IsBounded (direct resp)),
    looked_up Method.list path none w _ (λ resp. list_of-IsBounded resp),
  )
