-- ===== src/Mock/Kv2/Lookups.antt =====
-- What a `MockKv2` answers and records.
use vault_client_rs.Prelude.{
  ℕ, ◌≡◌, refl, sym, ap, ◌∙◌, false, List, [], ◌∷◌, ◌++◌, Option, some, inl, inr, ◌⊎◌, append_assoc,
  map,
}
use mathlib.Core.List.{append-nil}
use vault_client_rs.Prelude.Text.{Text, text_eq}
use vault_client_rs.Prelude.Search.{text_eq_refl}
use vault_client_rs.Json.{Json}
use vault_client_rs.Effect.{ok, err}
use vault_client_rs.Kv.{KvReadResponse}
use vault_client_rs.Operations.Kv2.{Kv2Operations}
use vault_client_rs.Mock.{MockError, Recorded, to_vault, programmed}
use vault_client_rs.Mock.Kv2.{MockKv2, with_data, with_error, answer, lookup, mock_kv2}

programmed_same :
    {V : Type 0} (p : Text) (v : V) (map : Text → Option V) → programmed p v map p ≡ some v
unfolding programmed
programmed_same p v map = rw (text_eq_refl p) refl

-- What was programmed last for a path is the answer there, data as they are and an error as the error of
-- the library; for every other path the answer is what it was before.
pub lookup-programmed :
    (m : MockKv2) (path other : Text) (value : Json) (e : MockError) (calls : List Text)
    → text_eq other path ≡ false
    → ((lookup (with_data path value (with_error path e m)) path calls).0 ≡ ok value)
      × ((lookup (with_error path e (with_data path value m)) path calls).0 ≡ err (to_vault path e))
      × ((lookup (with_data path value m) other calls).0 ≡ (lookup m other calls).0)
      × ((lookup (with_error path e m) other calls).0 ≡ (lookup m other calls).0)
unfolding lookup with_data with_error
lookup-programmed m path other value e calls ne =
    let first : (x : MockError ⊎ Json) (map : Text → Option (MockError ⊎ Json))
        → answer path (programmed path x map path) ≡ answer path (some x) =
      λ x map. ap (answer path) (programmed_same path x map) in
    let kept : (x : MockError ⊎ Json)
        → answer other (programmed path x m.responses other) ≡ answer other (m.responses other) =
      λ x. unfold programmed in rw ne refl in
    (
      first (inr value) (with_error path e m).responses ∙ (unfold answer in refl),
      first (inl e) (with_data path value m).responses ∙ (unfold answer in refl),
      kept (inr value),
      kept (inl e),
    )

-- A read through the trait: of the data, of the whole secret, or of one of its versions.
pub data Reading : Type 0 where
  the_data : Text → Reading
  the_secret : Text → Reading
  a_version : Text → ℕ → Reading

abbrev pub path_of : Reading → Text
path_of (the_data path) = path
path_of (the_secret path) = path
path_of (a_version path version) = path

module _ {T : Type 0} (o : Kv2Operations (Recorded Text) T) where
  -- The calls after a read, and after one read after the other.
  abbrev pub calls_after : Reading → List Text → List Text
  calls_after (the_data path) calls = (o.read_data path calls).1
  calls_after (the_secret path) calls = (o.read path calls).1
  calls_after (a_version path version) calls = (o.read_version path version calls).1

  abbrev pub all_calls : List Reading → List Text → List Text
  all_calls [] calls = calls
  all_calls (r ∷ rs) calls = all_calls rs (calls_after r calls)

module _ {T : Type 0} (from_response : Json → Text ⊎ KvReadResponse T)
    (from_value : Json → Text ⊎ T) (m : MockKv2) where
  calls_after-push :
      (r : Reading) (calls : List Text)
      → calls_after (mock_kv2 from_response from_value m) r calls ≡ calls ++ (path_of r ∷ [])
  unfolding mock_kv2
  calls_after-push (the_data path) calls = refl
  calls_after-push (the_secret path) calls = refl
  calls_after-push (a_version path version) calls = refl

  -- After any reads of secrets through the trait, of whatever kind and outcome, `calls` has their paths in
  -- the order of the calls, after those of before.
  pub all_calls-in_order :
      (rs : List Reading) (calls : List Text)
      → all_calls (mock_kv2 from_response from_value m) rs calls ≡ calls ++ map path_of rs
  all_calls-in_order [] calls = sym (append-nil calls)
  all_calls-in_order (r ∷ rs) calls =
      ap (all_calls (mock_kv2 from_response from_value m) rs) (calls_after-push r calls)
      ∙ (all_calls-in_order rs (calls ++ (path_of r ∷ []))
          ∙ append_assoc calls (path_of r ∷ []) (map path_of rs))
