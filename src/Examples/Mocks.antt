-- ===== src/Examples/Mocks.antt =====
-- Runs of the mocks.
use vault_client_rs.Prelude.{
  ◌≡◌, ◌≢◌, ◌↔◌, refl, false, none, some, [], ◌∷◌, inl, inr, Option, if◌then◌else◌,
}
use vault_client_rs.Prelude.Text.{Text, codes, text_eq, starts_with}
use vault_client_rs.Json.{
  Json, null, bool, number, pos_int, string, array, object, Fields, end, field,
}
use vault_client_rs.VaultError.{field_not_found}
use vault_client_rs.CircuitBreaker
use vault_client_rs.CircuitBreaker.{check}
use vault_client_rs.Effect.{Env, World, ok, err}
use vault_client_rs.Retry.{send_with_retry}
use vault_client_rs.Request.{execute_raw}
use vault_client_rs.Token.{ensure_valid_token}
use vault_client_rs.Execute.{exec_with_data, execute}
use vault_client_rs.Wire.{Decode, HashMap}
use vault_client_rs.Kv.{KvReadResponse}
use vault_client_rs.Kv.V2
use vault_client_rs.Kv.V2.{endpoint}
use vault_client_rs.Mock.Kv2.{MockKv2, new, read_field, mock_kv2}
use vault_client_rs.Mock.Kv2.Lookups.{
  the_data, the_secret, a_version, all_calls, all_calls-in_order,
}
use vault_client_rs.Mock.Kv2.Mirrors.{
  string_of, IsOther, without_mount, read_field-mirrors, read_field-diverges,
}
use vault_client_rs.Examples.{server, some_client, some_world}

all_calls-in_order_example :
    all_calls
      (mock_kv2 {T = Json} (λ v. inl []) inr new)
      (the_data (codes "a") ∷ the_secret (codes "b") ∷ a_version (codes "a") 2 ∷ [])
      []
    ≡ codes "a" ∷ codes "b" ∷ codes "a" ∷ []
all_calls-in_order_example =
    all_calls-in_order {T = Json} (λ v. inl []) inr new
      (the_data (codes "a") ∷ the_secret (codes "b") ∷ a_version (codes "a") 2 ∷ []) []

-- A secret with the string `user` and the number `port`.
abbrev secret : Json
secret =
    object
      (field (codes "user") (string (codes "ann")) (field (codes "port") (number (pos_int 80)) end))

abbrev find : Text → Fields → Option Json
find name end = none
find name (field k v rest) = let more = find name rest in if text_eq name k then some v else more

abbrev get_member : Text → Json → Option Json
get_member name (object fields) = find name fields
get_member name other = none

abbrev text_of : Json → Option Text
text_of (string s) = some s
text_of other = none

abbrev vault : Env
vault = record (server 200) { get = get_member; as_str = text_of }

abbrev fields : HashMap Json
fields name = get_member name secret

abbrev holding : Decode (KvReadResponse (HashMap Json))
holding r = inr (record {
  request_id = none;
  lease_id = none;
  lease_duration = none;
  renewable = none;
  data_field = some (record {
    data_field = fields;
    metadata = record {
      created_time = [];
      custom_metadata = none;
      deletion_time = [];
      destroyed = false;
      version = 1;
    };
  });
  auth = none;
  warnings = none;
  wrap_info = none;
})

abbrev bare : World
bare = record some_world { token = none }

abbrev after : World
after = (V2.read_data vault (λ w. w) some_client (codes "kv") holding (codes "app") bare).1

reads :
    V2.read_data vault (λ w. w) some_client (codes "kv") holding (codes "app") bare
    ≡ (ok fields, after)
unfolding V2.read_data exec_with_data execute ensure_valid_token execute_raw send_with_retry check
    starts_with endpoint CircuitBreaker.new
reads = refl

abbrev mock : MockKv2
mock = record { responses = λ path. some (inr secret) }

members : (name : Text) → vault.get name secret ≡ fields name
members name = refl

strings : (v : Json) → vault.as_str v ≡ string_of v
strings null = refl
strings (bool b) = refl
strings (number n) = refl
strings (string s) = refl
strings (array items) = refl
strings (object members) = refl

read_field-mirrors_example :
    (((read_field vault mock (codes "app") (codes "user") []).0
        ≡ without_mount
            (V2.read_field vault
              (λ w. w)
              some_client
              (codes "kv")
              (λ v. codes "80")
              holding
              (codes "app")
              (codes "user")
              bare).0)
      ↔ (¬ IsOther (fields (codes "user"))))
    × ((read_field vault mock (codes "app") (codes "user") []).1 ≡ codes "app" ∷ [])
read_field-mirrors_example =
    read_field-mirrors vault (λ w. w) some_client (codes "kv") (λ v. codes "80") holding mock
      (codes "app") fields secret [] bare after reads refl members strings (codes "user")

port_other : (s : Text) → number (pos_int 80) ≢ string s
port_other s e = cc e

read_field-diverges_example :
    (V2.read_field vault
        (λ w. w)
        some_client
        (codes "kv")
        (λ v. codes "80")
        holding
        (codes "app")
        (codes "port")
        bare
      ≡ (ok (codes "80"), after))
    × ((read_field vault mock (codes "app") (codes "port") []).0
        ≡ err (field_not_found [] (codes "app") (codes "port")))
read_field-diverges_example =
    read_field-diverges vault (λ w. w) some_client (codes "kv") (λ v. codes "80") holding mock
      (codes "app") fields secret [] bare after reads refl members strings (codes "port")
      (number (pos_int 80)) refl port_other
