-- ===== src/Effect/External.antt =====
-- The libraries and the server that the client calls: reqwest, url, serde_json, rand and Vault.
use vault_client_rs.Prelude.{ℕ, Option, none, some, List, [], ◌∷◌, ◌⊎◌, unwrap_or}
use vault_client_rs.Prelude.Text.{Text, codes}
use vault_client_rs.Json.{Json}
use vault_client_rs.VaultError.{ReqwestError}
use vault_client_rs.VaultResponse.{VaultResponse, ListResponse}

pub data Method : Type 0 where
  get post put delete patch list : Method

pub record Request : Type 0 where
  pub method : Method
  pub url : Text
  pub headers : List (Text × Text)
  pub body : Option Json

-- `retry_after` is the value of the Retry-After header; `body` is `none` if reading it fails.
pub record Response : Type 0 where
  pub status : ℕ
  pub retry_after : Option Text
  pub body : Option Text

pub record Env : Type 0 where
  -- the outcome of the n-th request that is sent, and the time that it takes
  pub send : ℕ → Request → ReqwestError ⊎ Response
  pub latency : ℕ → ℕ
  -- the k-th random number, below the bound
  pub random_range : ℕ → ℕ → ℕ
  -- `RequestBuilder::try_clone`
  pub try_clone : Request → Option Request
  -- `Url::parse`, an error or the normalised text
  pub parse_url : Text → Text ⊎ Text
  -- `serde_json::from_str::<Value>`
  pub from_str : Text → Option Json
  -- `Value::get` with a string, `Value::as_array`, `Value::as_str`
  pub get : Text → Json → Option Json
  pub as_array : Json → Option (List Json)
  pub as_str : Json → Option Text
  -- `Response::json` into a `VaultResponse<serde_json::Value>`, a `VaultResponse<ListResponse>`
  pub json_value : Response → ReqwestError ⊎ VaultResponse Json
  pub json_list : Response → ReqwestError ⊎ VaultResponse ListResponse
  -- `Duration::mul_f64`, by a number of hundredths
  pub mul_f64 : ℕ → ℕ → ℕ

-- `filter_map(|v| v.as_str().map(String::from))`.
strings : Env → List Json → List Text
strings env [] = []
strings env (v ∷ vs) = elim (env.as_str v) [ none ↦ strings env vs | some s ↦ s ∷ strings env vs ]

unless_empty : Text → List Text
unless_empty [] = []
unless_empty (b ∷ body) = (b ∷ body) ∷ []

error_array : Env → Option Json → Option (List Json)
error_array env none = none
error_array env (some v) = elim (env.get (codes "errors") v) [
  | none ↦ none
  | some e ↦ env.as_array e
]

-- `VaultClient::extract_errors`.
unfoldable pub extract_errors : Env → Response → List Text
unfolding strings unless_empty error_array
extract_errors env resp =
    let body = unwrap_or resp.body [] in
    elim (error_array env (env.from_str body)) [
      | none ↦ unless_empty body
      | some vs ↦ strings env vs
    ]
