-- ===== src/Operations/TokenAuth.antt =====
-- api/traits.rs: `TokenAuthOperations`, and its blocking form.
use vault_client_rs.Prelude.{Bool, Option, List}
use vault_client_rs.Prelude.Text.{Text}
use vault_client_rs.VaultResponse.{AuthInfo}
use vault_client_rs.Client.{VaultClient}
use vault_client_rs.Effect.{Env, World, M}
use vault_client_rs.Wire.{Decode}
use vault_client_rs.Operations.{block_on}
use vault_client_rs.AuthAdmin.Token
use vault_client_rs.AuthAdmin.Token.{TokenCreateRequest, TokenLookupResponse}

pub record TokenAuthOperations (F : Type 0 → Type 0) : Type 0 where
  pub lookup_self : F TokenLookupResponse
  pub lookup : Text → F TokenLookupResponse
  pub renew_self : Option Text → F AuthInfo
  pub create : TokenCreateRequest → F AuthInfo
  pub create_orphan : TokenCreateRequest → F AuthInfo
  pub revoke : Text → F (Unit {0})
  pub revoke_self : F (Unit {0})
  pub revoke_accessor : Text → F (Unit {0})
  pub list_accessors : F (List Text)

-- The implementation by the handler, with the decoders of the responses.
unfoldable pub token_auth_handler :
    (env : Env) (waiting : World → World) (c : VaultClient)
    (read_token_lookup_response : Decode TokenLookupResponse)
    → TokenAuthOperations M
token_auth_handler env waiting c read_token_lookup_response = record {
  lookup_self = Token.lookup_self env waiting c read_token_lookup_response;
  lookup = Token.lookup env waiting c read_token_lookup_response;
  renew_self = Token.renew_self env waiting c;
  create = Token.create env waiting c;
  create_orphan = Token.create_orphan env waiting c;
  revoke = Token.revoke env waiting c;
  revoke_self = Token.revoke_self env waiting c;
  revoke_accessor = Token.revoke_accessor env waiting c;
  list_accessors = Token.list_accessors env waiting c;
}

-- `TokenAuthHandler` of blocking/mod.rs.
unfoldable pub blocking_token_auth : Bool → TokenAuthOperations M → TokenAuthOperations M
unfolding block_on
blocking_token_auth in_runtime o = record {
  lookup_self = block_on in_runtime o.lookup_self;
  lookup = λ a. block_on in_runtime (o.lookup a);
  renew_self = λ a. block_on in_runtime (o.renew_self a);
  create = λ a. block_on in_runtime (o.create a);
  create_orphan = λ a. block_on in_runtime (o.create_orphan a);
  revoke = λ a. block_on in_runtime (o.revoke a);
  revoke_self = block_on in_runtime o.revoke_self;
  revoke_accessor = λ a. block_on in_runtime (o.revoke_accessor a);
  list_accessors = block_on in_runtime o.list_accessors;
}
