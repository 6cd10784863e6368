-- ===== src/Json.antt =====
-- JSON documents, with the constructors of `serde_json::Value`; its methods are in the `Env` of Effect.
use vault_client_rs.Prelude.{ℕ, Bool}
use vault_client_rs.Prelude.Text.{Text}

-- A number is an integer, or the text of a float.
pub data Number : Type 0 where
  pos_int : ℕ → Number
  neg_int : ℕ → Number
  float : Text → Number

mutual
  pub data Json : Type 0 where
    null : Json
    bool : Bool → Json
    number : Number → Json
    string : Text → Json
    array : Items → Json
    object : Fields → Json

  pub data Items : Type 0 where
    nil : Items
    cons : Json → Items → Items

  pub data Fields : Type 0 where
    end : Fields
    field : Text → Json → Fields → Fields
