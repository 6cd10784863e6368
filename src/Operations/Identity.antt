-- ===== src/Operations/Identity.antt =====
-- api/traits.rs: `IdentityOperations`, and its blocking form.
use vault_client_rs.Prelude.{Bool, List}
use vault_client_rs.Prelude.Text.{Text}
use vault_client_rs.Client.{VaultClient}
use vault_client_rs.Effect.{Env, World, M}
use vault_client_rs.Wire.{Decode}
use vault_client_rs.Operations.{block_on}
use vault_client_rs.Engines.Identity
use vault_client_rs.Engines.Identity.Types.{
  EntityCreateRequest, Entity, EntityAliasCreateRequest, EntityAliasResponse, GroupCreateRequest,
  Group, GroupAliasCreateRequest, GroupAliasResponse,
}

pub record IdentityOperations (F : Type 0 → Type 0) : Type 0 where
  pub create_entity : EntityCreateRequest → F Entity
  pub read_entity : Text → F Entity
  pub read_entity_by_name : Text → F Entity
  pub update_entity : Text → EntityCreateRequest → F (Unit {0})
  pub delete_entity : Text → F (Unit {0})
  pub list_entities : F (List Text)
  pub create_entity_alias : EntityAliasCreateRequest → F EntityAliasResponse
  pub read_entity_alias : Text → F EntityAliasResponse
  pub delete_entity_alias : Text → F (Unit {0})
  pub list_entity_aliases : F (List Text)
  pub create_group : GroupCreateRequest → F Group
  pub read_group : Text → F Group
  pub read_group_by_name : Text → F Group
  pub update_group : Text → GroupCreateRequest → F (Unit {0})
  pub delete_group : Text → F (Unit {0})
  pub list_groups : F (List Text)
  pub create_group_alias : GroupAliasCreateRequest → F GroupAliasResponse
  pub read_group_alias : Text → F GroupAliasResponse
  pub delete_group_alias : Text → F (Unit {0})
  pub list_group_aliases : F (List Text)

-- The implementation by the handler, with the decoders of the responses.
unfoldable pub identity_handler :
    (env : Env) (waiting : World → World) (c : VaultClient) (read_entity : Decode Entity)
    (read_entity_alias_response : Decode EntityAliasResponse) (read_group : Decode Group)
    (read_group_alias_response : Decode GroupAliasResponse)
    → IdentityOperations M
identity_handler env waiting c read_entity read_entity_alias_response read_group
      read_group_alias_response =
    record {
      create_entity = Identity.create_entity env waiting c read_entity;
      read_entity = Identity.read_entity env waiting c read_entity;
      read_entity_by_name = Identity.read_entity_by_name env waiting c read_entity;
      update_entity = Identity.update_entity env waiting c;
      delete_entity = Identity.delete_entity env waiting c;
      list_entities = Identity.list_entities env waiting c;
      create_entity_alias = Identity.create_entity_alias env waiting c read_entity_alias_response;
      read_entity_alias = Identity.read_entity_alias env waiting c read_entity_alias_response;
      delete_entity_alias = Identity.delete_entity_alias env waiting c;
      list_entity_aliases = Identity.list_entity_aliases env waiting c;
      create_group = Identity.create_group env waiting c read_group;
      read_group = Identity.read_group env waiting c read_group;
      read_group_by_name = Identity.read_group_by_name env waiting c read_group;
      update_group = Identity.update_group env waiting c;
      delete_group = Identity.delete_group env waiting c;
      list_groups = Identity.list_groups env waiting c;
      create_group_alias = Identity.create_group_alias env waiting c read_group_alias_response;
      read_group_alias = Identity.read_group_alias env waiting c read_group_alias_response;
      delete_group_alias = Identity.delete_group_alias env waiting c;
      list_group_aliases = Identity.list_group_aliases env waiting c;
    }

-- `IdentityHandler` of blocking/mod.rs.
unfoldable pub blocking_identity : Bool → IdentityOperations M → IdentityOperations M
unfolding block_on
blocking_identity in_runtime o = record {
  create_entity = λ a. block_on in_runtime (o.create_entity a);
  read_entity = λ a. block_on in_runtime (o.read_entity a);
  read_entity_by_name = λ a. block_on in_runtime (o.read_entity_by_name a);
  update_entity = λ a b. block_on in_runtime (o.update_entity a b);
  delete_entity = λ a. block_on in_runtime (o.delete_entity a);
  list_entities = block_on in_runtime o.list_entities;
  create_entity_alias = λ a. block_on in_runtime (o.create_entity_alias a);
  read_entity_alias = λ a. block_on in_runtime (o.read_entity_alias a);
  delete_entity_alias = λ a. block_on in_runtime (o.delete_entity_alias a);
  list_entity_aliases = block_on in_runtime o.list_entity_aliases;
  create_group = λ a. block_on in_runtime (o.create_group a);
  read_group = λ a. block_on in_runtime (o.read_group a);
  read_group_by_name = λ a. block_on in_runtime (o.read_group_by_name a);
  update_group = λ a b. block_on in_runtime (o.update_group a b);
  delete_group = λ a. block_on in_runtime (o.delete_group a);
  list_groups = block_on in_runtime o.list_groups;
  create_group_alias = λ a. block_on in_runtime (o.create_group_alias a);
  read_group_alias = λ a. block_on in_runtime (o.read_group_alias a);
  delete_group_alias = λ a. block_on in_runtime (o.delete_group_alias a);
  list_group_aliases = block_on in_runtime o.list_group_aliases;
}
