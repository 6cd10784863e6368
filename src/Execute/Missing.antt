-- ===== src/Execute/Missing.antt =====
-- How the `exec_*` functions of client/async_client.rs read the response of `execute`, a 404 above all.
use vault_client_rs.Prelude.{
  ◌≤◌, ◌≡◌, ◌≢◌, refl, ◌⊎◌, inl, inr, Option, none, some, List, [], ◌==◌, arith, Bool-cases,
}
use vault_client_rs.Prelude.Text.{Text}
use vault_client_rs.Json.{Json}
use vault_client_rs.VaultError.{ReqwestError, http, not_found, empty_response}
use vault_client_rs.VaultResponse.{VaultResponse, ListResponse}
use vault_client_rs.Client.{VaultClient}
use vault_client_rs.Effect.{
  Env, Method, patch, Response, World, Exit, ok, err, panicked, M, continue, pure, ok_or, ◌>>=◌,
  ◌>>◌,
}
use vault_client_rs.Retry.Statuses.{IsSuccess}
use vault_client_rs.Request.{execute_raw}
use vault_client_rs.Request.Within.{IsAnswer, execute_raw-Within}
use vault_client_rs.Token.{decoded}
use vault_client_rs.Execute.{
  is_login, ensure_unless, found, execute, exec_with_data, exec_with_auth, exec_patch, exec_empty,
  exec_direct, keys_of, list_of, exec_list,
}

-- A response, if there is one, has a status of 2xx or 404.
abbrev IsAnswered : Exit Response → Type 0
IsAnswered (ok resp) = IsSuccess resp.status
IsAnswered (err e) = Unit
IsAnswered panicked = Unit

IsAnswer-IsAnswered : (x : Exit Response) → IsAnswer x → IsAnswered x
IsAnswer-IsAnswered (ok resp) h = h
IsAnswer-IsAnswered (err e) h = tt
IsAnswer-IsAnswered panicked h = tt

continue-IsAnswered :
    {A : Type 0} (x : Exit A) (f : A → M Response) (w : World)
    → ((a : A) → IsAnswered (f a w).0)
    → IsAnswered (continue x f w).0
continue-IsAnswered (ok a) f w h = h a
continue-IsAnswered (err e) f w h = tt
continue-IsAnswered panicked f w h = tt

-- What a call returns, by the outcome of `execute`: `good` for a response, or the same failure.
abbrev pub Reads : {A : Type 0} → (Response → Exit A → Type 0) → Exit Response → Exit A → Type 0
Reads good (ok resp) r = good resp r
Reads good (err e) r = r ≡ err e
Reads good panicked r = r ≡ panicked

abbrev pub IsFound : Response → Type 0
IsFound resp = (200 ≤ resp.status) × (resp.status ≤ 299)

-- `NotFound` with the path exactly for a 404.
abbrev pub FailsIfMissing : {A : Type 0} → Text → Response → Exit A → Type 0
FailsIfMissing path resp r =
    ((resp.status ≡ 404) × (r ≡ err (not_found path)))
    ⊎ (IsFound resp × (r ≢ err (not_found path)) × (r ≢ panicked))

-- No keys for a 404, and never `NotFound`.
abbrev pub EmptyIfMissing : Text → Response → Exit (List Text) → Type 0
EmptyIfMissing path resp r =
    ((resp.status ≡ 404) × (r ≡ ok []))
    ⊎ (IsFound resp × (r ≢ err (not_found path)) × (r ≢ panicked))

-- What is decoded, or the error of the decoder.
abbrev pub IsDecoded : {T : Type 0} → ReqwestError ⊎ T → Exit T → Type 0
IsDecoded (inl e) r = r ≡ err (http e)
IsDecoded (inr t) r = r ≡ ok t

decoded-IsDecoded : {T : Type 0} (o : ReqwestError ⊎ T) (w : World) → IsDecoded o (decoded o w).0
decoded-IsDecoded (inl e) w = refl
decoded-IsDecoded (inr t) w = refl

Reads-continue :
    {A : Type 0} (good : Response → Exit A → Type 0) (x : Exit Response) (f : Response → M A)
    (w : World)
    → IsAnswered x
    → ((resp : Response) → IsSuccess resp.status → good resp (f resp w).0)
    → Reads good x (continue x f w).0
Reads-continue good (ok resp) f w a h = h resp a
Reads-continue good (err e) f w a h = refl
Reads-continue good panicked f w a h = refl

module _ {T : Type 0} (path : Text) where
  -- An outcome that is neither a panic nor `NotFound` with the path.
  abbrev IsRead : Exit T → Type 0
  IsRead r = (r ≢ err (not_found path)) × (r ≢ panicked)

  decoded-IsRead : (o : ReqwestError ⊎ T) (w : World) → IsRead (decoded o w).0
  decoded-IsRead (inl e) w = ground arith
  decoded-IsRead (inr t) w = ground arith

  found-Fails :
      (resp : Response) (more : M T) (w : World)
      → ((w' : World) → IsRead (more w').0)
      → IsSuccess resp.status
      → FailsIfMissing path resp ((found path resp >> more) w).0
  unfolding found
  found-Fails resp more w h s = elim (Bool-cases (resp.status == 404)) [
    | inl q ↦ rw q (ground arith)
    | inr q ↦ rw q (inr (ground arith, (h w).0, (h w).1))
  ]

module _ {T : Type 0} (path : Text) where
  ok_or-IsRead : (o : Option T) (w : World) → IsRead path (ok_or o empty_response w).0
  ok_or-IsRead none w = ground arith
  ok_or-IsRead (some t) w = ground arith

  envelope-IsRead :
      (o : ReqwestError ⊎ VaultResponse T) (w : World)
      → IsRead path ((do envelope ← decoded o; ok_or envelope.data_field empty_response) w).0
  envelope-IsRead (inl e) w = ground arith
  envelope-IsRead (inr v) w = ok_or-IsRead v.data_field w

module _ (env : Env) (waiting : World → World) (c : VaultClient) where
  execute-IsAnswered :
      (method : Method) (path : Text) (body : Option Json) (w : World)
      → IsAnswered (execute env waiting c method path body w).0
  unfolding execute
  execute-IsAnswered method path body w =
      let (x, w') = ensure_unless (is_login path) env waiting c w in
      continue-IsAnswered x (λ _. execute_raw env c method path body) w'
        λ _. IsAnswer-IsAnswered _ (execute_raw-Within env c method path body w').1

  found-Missing :
      (path : Text) (resp : Response) (w : World)
      → IsSuccess resp.status
      → FailsIfMissing path resp (found path resp w).0
  unfolding found
  found-Missing path resp w s = elim (Bool-cases (resp.status == 404)) [
    | inl q ↦ rw q (ground arith)
    | inr q ↦ rw q (ground arith)
  ]

  keys-IsRead :
      (path : Text) (o : ReqwestError ⊎ VaultResponse ListResponse) (w : World)
      → IsRead path ((do envelope ← decoded o; pure (keys_of envelope.data_field)) w).0
  keys-IsRead path (inl e) w = ground arith
  keys-IsRead path (inr v) w = ground arith

  list_of-Empty :
      (path : Text) (resp : Response) (w : World)
      → IsSuccess resp.status
      → EmptyIfMissing path resp (list_of env waiting c resp w).0
  unfolding list_of
  list_of-Empty path resp w s = elim (Bool-cases (resp.status == 404)) [
    | inl q ↦ rw q (ground arith)
    | inr q ↦
        let read = keys-IsRead path (env.json_list resp) w in
        rw q (inr (ground arith, read.0, read.1))
  ]

  -- On every path of the `exec_*` functions: a failure of `execute` is theirs; a response has a status
  -- of 2xx or 404; on a 404, `exec_list` returns no keys, `exec_direct` decodes the body all the
  -- same, and the others fail with `NotFound` and the path of the call; and on a 2xx none of them
  -- fails so.
  pub exec_missing :
      {T : Type 0} (deserialize : Response → ReqwestError ⊎ VaultResponse T)
      (direct : Response → ReqwestError ⊎ T) (method : Method) (path : Text) (body : Option Json)
      (merge : Json) (w : World)
      → let x = (execute env waiting c method path body w).0 in
        Reads
          (FailsIfMissing path)
          x
          (exec_with_data env waiting c deserialize method path body w).0
        × Reads
            (FailsIfMissing path)
            x
            (exec_with_auth env waiting c deserialize method path body w).0
        × Reads
            (FailsIfMissing path)
            (execute env waiting c patch path (some merge) w).0
            (exec_patch env waiting c deserialize path merge w).0
        × Reads (FailsIfMissing path) x (exec_empty env waiting c method path body w).0
        × Reads
            (λ resp r. IsSuccess resp.status × IsDecoded (direct resp) r)
            x
            (exec_direct env waiting c direct method path body w).0
        × Reads
            (EmptyIfMissing path)
            (execute env waiting c Method.list path none w).0
            (exec_list env waiting c path w).0
  unfolding exec_with_data exec_with_auth exec_patch exec_empty exec_direct exec_list
  exec_missing deserialize direct method path body merge w =
      let (x, w') = execute env waiting c method path body w in
      let a = execute-IsAnswered method path body w in
      let (y, wy) = execute env waiting c patch path (some merge) w in
      let (z, wz) = execute env waiting c Method.list path none w in
      (
        Reads-continue _ x _ w' a (λ resp s.
            found-Fails path resp _ w' (λ w1. envelope-IsRead path (deserialize resp) w1) s),
        Reads-continue _ x _ w' a (λ resp s.
            found-Fails path resp _ w' (λ w1. decoded-IsRead path (deserialize resp) w1) s),
        Reads-continue _ y _ wy (execute-IsAnswered patch path (some merge) w) (λ resp s.
            found-Fails path resp _ wy (λ w1. envelope-IsRead path (deserialize resp) w1) s),
        Reads-continue _ x _ w' a (λ resp s. found-Missing path resp w' s),
        Reads-continue _ x _ w' a (λ resp s. (s, decoded-IsDecoded (direct resp) w')),
        Reads-continue _ z _ wz (execute-IsAnswered Method.list path none w)
            (λ resp s. list_of-Empty path resp wz s),
      )
