-- ===== src/Engines/Identity.antt =====
-- api/identity.rs: the Identity handler.
pub mod Types
use vault_client_rs.Prelude.{none, some, List, ◌++◌}
use vault_client_rs.Prelude.Text.{Text, codes}
use vault_client_rs.EncodePath.{encode_path}
use vault_client_rs.Client.{VaultClient}
use vault_client_rs.Effect.{Env, get, post, Method, World, M}
use vault_client_rs.Execute.{exec_with_data, exec_empty, exec_list}
use vault_client_rs.Wire.{Decode}
use vault_client_rs.Engines.Identity.Types.{
  EntityCreateRequest, entity_create_request_body, Entity, EntityAliasCreateRequest,
  entity_alias_create_request_body, EntityAliasResponse, GroupCreateRequest,
  group_create_request_body, Group, GroupAliasCreateRequest, group_alias_create_request_body,
  GroupAliasResponse,
}

module _ (env : Env) (waiting : World → World) (c : VaultClient) where
  unfoldable pub create_entity : Decode Entity → EntityCreateRequest → M Entity
  create_entity decode params =
      exec_with_data env waiting c decode post (codes "identity/entity")
        (some (entity_create_request_body params))

  unfoldable pub read_entity : Decode Entity → Text → M Entity
  read_entity decode id =
      exec_with_data env waiting c decode get (codes "identity/entity/id/" ++ encode_path id) none

  unfoldable pub read_entity_by_name : Decode Entity → Text → M Entity
  read_entity_by_name decode name =
      exec_with_data env waiting c decode get (codes "identity/entity/name/" ++ encode_path name)
        none

  unfoldable pub update_entity : Text → EntityCreateRequest → M (Unit {0})
  update_entity id params =
      exec_empty env waiting c post (codes "identity/entity/id/" ++ encode_path id)
        (some (entity_create_request_body params))

  unfoldable pub delete_entity : Text → M (Unit {0})
  delete_entity id =
      exec_empty env waiting c Method.delete (codes "identity/entity/id/" ++ encode_path id) none

  unfoldable pub list_entities : M (List Text)
  list_entities = exec_list env waiting c (codes "identity/entity/id")

  unfoldable pub create_entity_alias :
      Decode EntityAliasResponse → EntityAliasCreateRequest → M EntityAliasResponse
  create_entity_alias decode params =
      exec_with_data env waiting c decode post (codes "identity/entity-alias")
        (some (entity_alias_create_request_body params))

  unfoldable pub read_entity_alias : Decode EntityAliasResponse → Text → M EntityAliasResponse
  read_entity_alias decode id =
      exec_with_data env waiting c decode get (codes "identity/entity-alias/id/" ++ encode_path id)
        none

  unfoldable pub delete_entity_alias : Text → M (Unit {0})
  delete_entity_alias id =
      exec_empty env waiting c Method.delete (codes "identity/entity-alias/id/" ++ encode_path id)
        none

  unfoldable pub list_entity_aliases : M (List Text)
  list_entity_aliases = exec_list env waiting c (codes "identity/entity-alias/id")

  unfoldable pub create_group : Decode Group → GroupCreateRequest → M Group
  create_group decode params =
      exec_with_data env waiting c decode post (codes "identity/group")
        (some (group_create_request_body params))

  unfoldable pub read_group : Decode Group → Text → M Group
  read_group decode id =
      exec_with_data env waiting c decode get (codes "identity/group/id/" ++ encode_path id) none

  unfoldable pub read_group_by_name : Decode Group → Text → M Group
  read_group_by_name decode name =
      exec_with_data env waiting c decode get (codes "identity/group/name/" ++ encode_path name)
        none

  unfoldable pub update_group : Text → GroupCreateRequest → M (Unit {0})
  update_group id params =
      exec_empty env waiting c post (codes "identity/group/id/" ++ encode_path id)
        (some (group_create_request_body params))

  unfoldable pub delete_group : Text → M (Unit {0})
  delete_group id =
      exec_empty env waiting c Method.delete (codes "identity/group/id/" ++ encode_path id) none

  unfoldable pub list_groups : M (List Text)
  list_groups = exec_list env waiting c (codes "identity/group/id")

  unfoldable pub create_group_alias :
      Decode GroupAliasResponse → GroupAliasCreateRequest → M GroupAliasResponse
  create_group_alias decode params =
      exec_with_data env waiting c decode post (codes "identity/group-alias")
        (some (group_alias_create_request_body params))

  unfoldable pub read_group_alias : Decode GroupAliasResponse → Text → M GroupAliasResponse
  read_group_alias decode id =
      exec_with_data env waiting c decode get (codes "identity/group-alias/id/" ++ encode_path id)
        none

  unfoldable pub delete_group_alias : Text → M (Unit {0})
  delete_group_alias id =
      exec_empty env waiting c Method.delete (codes "identity/group-alias/id/" ++ encode_path id)
        none

  unfoldable pub list_group_aliases : M (List Text)
  list_group_aliases = exec_list env waiting c (codes "identity/group-alias/id")
