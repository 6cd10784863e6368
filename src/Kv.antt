-- ===== src/Kv.antt =====
-- types/kv.rs, and what the handlers of api/kv1.rs and api/kv2.rs share: decimal numbers in a path, and
-- the field of a secret.
pub mod V1
pub mod V2
pub mod ReadField
pub mod Decimal
use vault_client_rs.Prelude.{
  ℕ, zero, suc, ◌+◌, ◌/◌, ◌%◌, Bool, Option, none, some, List, [], ◌∷◌, ◌++◌, ◌⊎◌, inl, inr, ltb,
  if◌then◌else◌,
}
use vault_client_rs.Prelude.Text.{Text, codes}
use vault_client_rs.Json.{Json, pos_int, number, bool, string, object, Fields, end, field}
use vault_client_rs.VaultError.{VaultError, field_not_found}
use vault_client_rs.Effect.{M, pure, raise}

-- A `HashMap<String, V>`.
abbrev pub HashMap : Type 0 → Type 0
HashMap V = Text → Option V

pub record KvMetadata : Type 0 where
  pub created_time : Text
  pub custom_metadata : Option (HashMap Text)
  pub deletion_time : Text
  pub destroyed : Bool
  pub version : ℕ  -- u64

pub record KvReadResponse (T : Type 0) : Type 0 where
  pub data_field : T
  pub metadata : KvMetadata

pub record KvVersionMetadata : Type 0 where
  pub created_time : Text
  pub deletion_time : Text
  pub destroyed : Bool

pub record KvFullMetadata : Type 0 where
  pub cas_required : Bool
  pub created_time : Text
  pub current_version : ℕ  -- u64
  pub custom_metadata : Option (HashMap Text)
  pub delete_version_after : Text
  pub max_versions : ℕ  -- u64
  pub oldest_version : ℕ  -- u64
  pub updated_time : Text
  pub versions : HashMap KvVersionMetadata

-- The entries of `custom_metadata` are in the order in which they are serialised.
pub record KvMetadataParams : Type 0 where
  pub max_versions : Option ℕ
  pub cas_required : Option Bool
  pub delete_version_after : Option Text
  pub custom_metadata : Option (List (Text × Text))

pub record KvConfig : Type 0 where
  pub cas_required : Option Bool
  pub max_versions : Option ℕ
  pub delete_version_after : Option Text

-- `skip_serializing_if = "Option::is_none"`.
abbrev pub unless_none : {A : Type 0} → (A → Json) → Text → Option A → Fields → Fields
unless_none f name none rest = rest
unless_none f name (some a) rest = field name (f a) rest

abbrev pub u64_json : ℕ → Json
u64_json n = number (pos_int n)

string_map : List (Text × Text) → Fields
string_map [] = end
string_map ((k, v) ∷ kvs) = field k (string v) (string_map kvs)

unfoldable pub params_body : KvMetadataParams → Json
unfolding string_map
params_body p = object (
    unless_none u64_json (codes "max_versions") p.max_versions (
      unless_none bool (codes "cas_required") p.cas_required (
        unless_none string (codes "delete_version_after") p.delete_version_after (
          unless_none (λ kvs. object (string_map kvs)) (codes "custom_metadata") p.custom_metadata
            end))))

unfoldable pub config_body : KvConfig → Json
config_body c = object (
    unless_none bool (codes "cas_required") c.cas_required (
      unless_none u64_json (codes "max_versions") c.max_versions
        (unless_none string (codes "delete_version_after") c.delete_version_after end)))

-- `{}` of an unsigned number: at most as many digits as the fuel. A u64 has at most twenty.
unfoldable pub decimal_digits : ℕ → ℕ → Text
decimal_digits zero n = []
decimal_digits (suc fuel) n =
    let front = decimal_digits fuel (n / 10) in
    if ltb n 10 then (b'0' + n) ∷ [] else front ++ (b'0' + n % 10) ∷ []

unfoldable pub decimal : ℕ → Text
unfolding decimal_digits
decimal n = decimal_digits 20 n

-- `to_body(data)?`, for data that serialise to a value or give an error.
abbrev pub to_body : VaultError ⊎ Json → M Json
to_body (inl e) = raise e
to_body (inr body) = pure body

-- The closure in `read_field`; `Value::to_string` is a parameter.
unfoldable pub stringified : (Json → Text) → Json → Text
stringified to_string (string s) = s
stringified to_string other = to_string other

-- `data.get(field).map(…).ok_or_else(…)`.
unfoldable pub field_of : (Json → Text) → Text → Text → Text → HashMap Json → M Text
unfolding stringified
field_of to_string mount path name fields w = elim (fields name) [
  | none ↦ raise (field_not_found mount path name) w
  | some v ↦ pure (stringified to_string v) w
]
