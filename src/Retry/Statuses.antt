-- ===== src/Retry/Statuses.antt =====
-- What the retry loop of client/async_client.rs makes of one outcome.
use vault_client_rs.Prelude.{
  ℕ, ◌≤◌, ◌<◌, ◌≡◌, false, some, ◌⊎◌, inl, inr, ◌||◌, ◌&&◌, leb, ◌==◌, arith, Bool-cases,
}
use vault_client_rs.Prelude.Text.{Text}
use vault_client_rs.VaultError.{VaultError, is_retryable, status_code}
use vault_client_rs.Client.{ClientConfig}
use vault_client_rs.Effect.{Env, Response, World, ok, err, panicked}
use vault_client_rs.Retry.{Next, stop, again, on_rate_limited, parse_header, on_response}

abbrev pub IsSuccess : ℕ → Type 0
IsSuccess status = ((200 ≤ status) × (status ≤ 299)) ⊎ (status ≡ 404)

-- A retryable error is given up only for one of these reasons.
abbrev pub IsExhausted : ClientConfig → ℕ → VaultError → Type 0
IsExhausted c attempt e =
    (c.max_retries ≤ attempt) ⊎ ((status_code e ≡ some 503) × (c.retry_on_sealed ≡ false))

-- The statuses after which the loop goes on.
abbrev pub IsRetried : ℕ → Type 0
IsRetried status =
    (status ≡ 429)
    ⊎ (status ≡ 412)
    ⊎ (status ≡ 500)
    ⊎ (status ≡ 502)
    ⊎ (status ≡ 503)
    ⊎ (status ≡ 504)

-- Why the loop does not go on after a status that is none of a success.
abbrev pub IsFinal : ClientConfig → ℕ → ℕ → Type 0
IsFinal c attempt status =
    (¬ IsRetried status)
    ⊎ (c.max_retries ≤ attempt)
    ⊎ ((status ≡ 503) × (c.retry_on_sealed ≡ false))

-- What a verdict says of the status that it was taken on.
abbrev pub IsVerdict : ClientConfig → ℕ → ℕ → Next → Type 0
IsVerdict c attempt status (stop (ok resp)) = (resp.status ≡ status) × IsSuccess status
IsVerdict c attempt status (stop (err e)) =
    (¬ IsSuccess status)
    × (status_code e ≡ some status)
    × ((is_retryable e ≡ false) ⊎ IsExhausted c attempt e)
    × IsFinal c attempt status
IsVerdict c attempt status (stop panicked) = ⊥
IsVerdict c attempt status (again skip) = (attempt < c.max_retries) × IsRetried status

module _ (env : Env) (c : ClientConfig) (url : Text) (attempt : ℕ) (resp : Response)
    (w : World) where
  -- The verdict in the arms from 429 on, for a status that the arms above do not take.
  rate_limited-IsVerdict :
      resp.status ≡ 429
      → IsVerdict c attempt resp.status
          (on_rate_limited c attempt (parse_header resp.retry_after) w).0
  unfolding on_rate_limited is_retryable status_code
  rate_limited-IsVerdict e = rw e (ground arith)

-- On every status: a response that is returned has a status of 2xx or 404, and is the one received;
-- an error that is returned has the status received, which is neither, and is retryable only if the
-- retries are used up or the vault is sealed and sealed vaults are not retried; the loop goes on only
-- before the last attempt and for a status of 412, 429, 500, 502, 503 or 504; and for these statuses it
-- stops only at the last attempt, or on a 503 where sealed vaults are not retried.
pub on_response-IsVerdict :
    (env : Env) (c : ClientConfig) (url : Text) (attempt : ℕ) (resp : Response) (w : World)
    → IsVerdict c attempt resp.status (on_response env c url attempt resp w).0
unfolding on_response is_retryable status_code
on_response-IsVerdict env c url attempt resp w =
    elim (Bool-cases ((leb 200 resp.status && leb resp.status 299) || resp.status == 404)) [
      | inl e ↦ rw e (ground arith)
      | inr e ↦ elim (Bool-cases (resp.status == 401)) [
        | inl e1 ↦ rw (e, e1) (ground arith)
        | inr e1 ↦ elim (Bool-cases (resp.status == 403)) [
          | inl e2 ↦ rw (e, e1, e2) (ground arith)
          | inr e2 ↦ elim (Bool-cases (resp.status == 429)) [
            | inl e3 ↦
                rw (e, e1, e2, e3) (rate_limited-IsVerdict env c url attempt resp w (ground arith))
            | inr e3 ↦ elim (Bool-cases (resp.status == 412)) [
              | inl e4 ↦ rw (e, e1, e2, e3, e4) (ground arith)
              | inr e4 ↦ elim (Bool-cases (resp.status == 503)) [
                | inl e5 ↦ rw (e, e1, e2, e3, e4, e5) (ground arith)
                | inr e5 ↦ rw (e, e1, e2, e3, e4, e5) (ground arith)
              ]
            ]
          ]
        ]
      ]
    ]
