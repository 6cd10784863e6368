-- ===== src/Kv/ReadField.antt =====
-- `read_field` of api/kv1.rs and api/kv2.rs.
use vault_client_rs.Prelude.{◌≡◌, arith, Option, none, some, ◌⊎◌}
use vault_client_rs.Prelude.Text.{Text}
use vault_client_rs.Json.{Json, string}
use vault_client_rs.VaultError.{ReqwestError, field_not_found}
use vault_client_rs.VaultResponse.{VaultResponse}
use vault_client_rs.Client.{VaultClient}
use vault_client_rs.Effect.{Env, Response, World, Exit, ok, err}
use vault_client_rs.Kv.{HashMap, KvReadResponse, field_of}
use vault_client_rs.Kv.V1
use vault_client_rs.Kv.V2

-- What `read_field` gives for the value of the field: a string as it is, any other value as its JSON
-- text, and the error that names the mount, the path and the field if there is none.
abbrev pub field_answer : (Json → Text) → Text → Text → Text → Option Json → Exit Text
field_answer to_string mount path name none = err (field_not_found mount path name)
field_answer to_string mount path name (some (string s)) = ok s
field_answer to_string mount path name (some v) = ok (to_string v)

field_of-field_answer :
    (to_string : Json → Text) (mount path name : Text) (fields : HashMap Json) (w : World)
    → field_of to_string mount path name fields w
      ≡ (field_answer to_string mount path name (fields name), w)
unfolding field_of
field_of-field_answer to_string mount path name fields w = ground arith

-- Both versions of `read_field` read a field alike, from a secret that is read with the same fields: a
-- string as it is, another value as its JSON text, and an error that names what was not found. They do
-- nothing beside the read.
pub read_field_alike :
    (env : Env) (waiting : World → World) (c : VaultClient) (mount path name : Text)
    (to_string : Json → Text) (json_map : Response → ReqwestError ⊎ VaultResponse (HashMap Json))
    (json_read : Response → ReqwestError ⊎ VaultResponse (KvReadResponse (HashMap Json)))
    (fields : HashMap Json) (r : KvReadResponse (HashMap Json)) (w w1 w2 : World)
    → r.data_field ≡ fields
    → V1.read env waiting c mount json_map path w ≡ (ok fields, w1)
    → V2.read env waiting c mount json_read path w ≡ (ok r, w2)
    → let answer = field_answer to_string mount path name (fields name) in
      (V1.read_field env waiting c mount to_string json_map path name w ≡ (answer, w1))
      × (V2.read_field env waiting c mount to_string json_read path name w ≡ (answer, w2))
unfolding V1.read_field V2.read_field V2.read_data
read_field_alike env waiting c mount path name to_string json_map json_read fields r w w1 w2 d h k =
    (
      rw h (field_of-field_answer to_string mount path name fields w1),
      rw (k, d) (field_of-field_answer to_string mount path name fields w2),
    )
