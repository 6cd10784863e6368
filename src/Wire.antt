-- ===== src/Wire.antt =====
-- What the handlers of api/ share: the decoders they are given, the paths they build, and the JSON of
-- the parameter types (derived `Serialize`, members in the order of the fields).
use vault_client_rs.Prelude.{String, Option, none, some, List, [], ◌∷◌, ◌++◌, ◌⊎◌, if◌then◌else◌}
use vault_client_rs.Prelude.Text.{Text, codes, text_eq}
use vault_client_rs.Json.{Json, null, array, object, Items, nil, cons, Fields, end, field}
use vault_client_rs.VaultError.{ReqwestError}
use vault_client_rs.VaultResponse.{VaultResponse}
use vault_client_rs.Effect.{Response}
use vault_client_rs.EncodePath.{encode_path}
pub use vault_client_rs.Kv.{HashMap, unless_none, u64_json}
unfoldable pub use vault_client_rs.Kv.{decimal}
pub use vault_client_rs.Auth.{member}

-- `Response::json` into an envelope, and into a value that is not in one.
abbrev pub Decode : Type 0 → Type 0
Decode T = Response → ReqwestError ⊎ VaultResponse T

abbrev pub DecodeDirect : Type 0 → Type 0
DecodeDirect T = Response → ReqwestError ⊎ T

-- `format!("{}/keys", mount)` and its like.
abbrev pub below : Text → String → Text
below mount s = mount ++ codes s

-- `format!("{}/keys/{}", mount, encode_path(name))` and its like.
unfoldable pub named : Text → String → Text → Text
named mount s name = mount ++ (codes s ++ encode_path name)

-- `format!("{}/keys/{}/config", mount, encode_path(name))` and its like.
unfoldable pub named_under : Text → String → Text → String → Text
named_under mount s name t = mount ++ (codes s ++ (encode_path name ++ codes t))

-- How a `serde_json::Value` is serialised.
abbrev pub json_itself : Json → Json
json_itself v = v

module _ {A : Type 0} (to_json : A → Json) where
  items_of : List A → Items
  items_of [] = nil
  items_of (a ∷ xs) = cons (to_json a) (items_of xs)

  unfoldable pub array_of : List A → Json
  unfolding items_of
  array_of xs = array (items_of xs)

  fields_of : List (Text × A) → Fields
  fields_of [] = end
  fields_of ((k, a) ∷ xs) = field k (to_json a) (fields_of xs)

  unfoldable pub object_of : List (Text × A) → Json
  unfolding fields_of
  object_of xs = object (fields_of xs)

  -- `skip_serializing_if = "Vec::is_empty"`.
  unfoldable pub unless_no_items : String → List A → Fields → Fields
  unless_no_items name [] rest = rest
  unless_no_items name (a ∷ xs) rest = field (codes name) (array_of (a ∷ xs)) rest

  -- An `Option` that is not skipped.
  unfoldable pub nullable : Option A → Json
  nullable none = null
  nullable (some a) = to_json a

-- `skip_serializing_if = "String::is_empty"`.
unfoldable pub unless_no_text : String → Text → Fields → Fields
unless_no_text name [] rest = rest
unless_no_text name (b ∷ s) rest = member name (b ∷ s) rest

-- `body[name] = value`, on an object.
unfoldable pub insert : Text → Json → Fields → Fields
insert name value end = field name value end
insert name value (field k v rest) =
    let kept = insert name value rest in
    if text_eq k name then field k value rest else field k v kept
