-- ===== src/Examples/Traversal.antt =====
-- Runs of requests whose paths have dot segments.
use vault_client_rs.Prelude.{
  ◌≡◌, refl, ap, some, none, inl, inr, [], ◌∷◌, ◌++◌, take, drop, arith, ◌==◌, Bool-cases,
}
use vault_client_rs.Prelude.Text.{Text, codes, trim_start_matches}
use vault_client_rs.EncodePath.{encode_path}
use vault_client_rs.EncodePath.Dots.{without_dots}
use vault_client_rs.Effect.{Env, get, Method, Request}
use vault_client_rs.Request.{execute_raw}
use vault_client_rs.Request.Addressed.{Grown, IsTo, execute_raw-Addressed}
use vault_client_rs.Kv.V2.{secret_data, endpoint}
use vault_client_rs.Kv.V2.Traversal.Backslash.{slashes, TakesBackslashes, endpoint-slashes}
use vault_client_rs.Examples.{server, some_client, some_world}

-- A parser that removes the dot segments below the client's base URL.
abbrev resolving : Env
resolving = record (server 200) { parse_url = λ u. inr (take 14 u ++ without_dots (drop 14 u)) }

clones : (r r' : Request) → resolving.try_clone r ≡ some r' → r' ≡ r
clones r r' e = cc e

execute_raw-Addressed_example :
    Grown
      (IsTo get (codes "https://vault/v1/kv/a") none)
      some_world.sent
      (execute_raw resolving some_client get (codes "kv/b/../a") none some_world).1.sent
unfolding trim_start_matches
execute_raw-Addressed_example =
    execute_raw-Addressed resolving clones some_client get (codes "kv/b/../a") none
      (codes "https://vault/v1/kv/a") some_world refl

-- A parser that writes each backslash as a slash.
abbrev slashing : Env
slashing = record (server 200) { parse_url = λ u. inr (slashes u) }

slashes-slashes : (s : Text) → slashes s ≡ slashes (slashes s)
slashes-slashes [] = refl
slashes-slashes (b ∷ s) = elim (Bool-cases (b == 92)) [
  | inl e ↦ rw e (ap (λ (t : Text). b'/' ∷ t) (slashes-slashes s))
  | inr e ↦ rw (e, e) (ap (λ (t : Text). b ∷ t) (slashes-slashes s))
]

takes_backslashes : TakesBackslashes slashing (codes "https://vault/")
takes_backslashes p h = ap (λ (s : Text). inr (codes "https://vault/" ++ s)) (slashes-slashes p)

-- `..\..\sys`.
abbrev backwards : Text
backwards = codes ".." ++ (92 ∷ codes "..") ++ (92 ∷ codes "sys")

endpoint-slashes_example :
    execute_raw slashing some_client Method.delete
      (endpoint (encode_path (codes "kv")) secret_data backwards)
      none
      some_world
    ≡ execute_raw slashing some_client Method.delete
        (endpoint (encode_path (codes "kv")) secret_data (codes "../../sys"))
        none
        some_world
endpoint-slashes_example =
    endpoint-slashes slashing some_client takes_backslashes Method.delete b'k' (codes "v")
      secret_data backwards none some_world refl refl (ground arith) (ground arith)
