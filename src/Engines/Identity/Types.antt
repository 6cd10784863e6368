-- ===== src/Engines/Identity/Types.antt =====
-- types/identity.rs: the types of the identity handler.
use vault_client_rs.Prelude.{Bool, Option, List}
use vault_client_rs.Prelude.Text.{Text, codes}
use vault_client_rs.Json.{Json, string, bool, object, end, field}
use vault_client_rs.Wire.{HashMap, unless_none, array_of, object_of}

pub record EntityCreateRequest : Type 0 where
  pub name : Option Text
  pub metadata : Option (List (Text × Text))
  pub policies : Option (List Text)
  pub disabled : Option Bool

unfoldable pub entity_create_request_body : EntityCreateRequest → Json
entity_create_request_body p = object (
    unless_none string (codes "name") p.name (
      unless_none (object_of string) (codes "metadata") p.metadata (
        unless_none (array_of string) (codes "policies") p.policies
          (unless_none bool (codes "disabled") p.disabled end))))

pub record EntityAlias : Type 0 where
  pub id : Text
  pub canonical_id : Text
  pub mount_accessor : Text
  pub mount_type : Text
  pub name : Text
  pub metadata : Option (HashMap Text)

pub record Entity : Type 0 where
  pub id : Text
  pub name : Text
  pub metadata : Option (HashMap Text)
  pub policies : List Text
  pub disabled : Bool
  pub aliases : List EntityAlias
  pub creation_time : Text
  pub last_update_time : Text

pub record EntityAliasCreateRequest : Type 0 where
  pub name : Text
  pub canonical_id : Text
  pub mount_accessor : Text
  pub metadata : Option (List (Text × Text))

unfoldable pub entity_alias_create_request_body : EntityAliasCreateRequest → Json
entity_alias_create_request_body p = object (
    field (codes "name") (string p.name) (
      field (codes "canonical_id") (string p.canonical_id) (
        field (codes "mount_accessor") (string p.mount_accessor)
          (unless_none (object_of string) (codes "metadata") p.metadata end))))

pub record EntityAliasResponse : Type 0 where
  pub id : Text
  pub canonical_id : Text
  pub mount_accessor : Text
  pub name : Text

pub record GroupCreateRequest : Type 0 where
  pub name : Text
  pub policies : Option (List Text)
  pub metadata : Option (List (Text × Text))
  pub member_entity_ids : Option (List Text)
  pub member_group_ids : Option (List Text)
  pub group_type : Option Text

unfoldable pub group_create_request_body : GroupCreateRequest → Json
group_create_request_body p = object (
    field (codes "name") (string p.name) (
      unless_none (array_of string) (codes "policies") p.policies (
        unless_none (object_of string) (codes "metadata") p.metadata (
          unless_none (array_of string) (codes "member_entity_ids") p.member_entity_ids (
            unless_none (array_of string) (codes "member_group_ids") p.member_group_ids
              (unless_none string (codes "type") p.group_type end))))))

pub record GroupAlias : Type 0 where
  pub id : Text
  pub canonical_id : Text
  pub mount_accessor : Text
  pub mount_type : Text
  pub name : Text

pub record Group : Type 0 where
  pub id : Text
  pub name : Text
  pub policies : List Text
  pub metadata : Option (HashMap Text)
  pub member_entity_ids : List Text
  pub member_group_ids : List Text
  pub group_type : Text
  pub creation_time : Text
  pub last_update_time : Text
  pub alias : Option GroupAlias

pub record GroupAliasCreateRequest : Type 0 where
  pub name : Text
  pub mount_accessor : Text
  pub canonical_id : Text

unfoldable pub group_alias_create_request_body : GroupAliasCreateRequest → Json
group_alias_create_request_body p = object (
    field (codes "name") (string p.name) (
      field (codes "mount_accessor") (string p.mount_accessor)
        (field (codes "canonical_id") (string p.canonical_id) end)))

pub record GroupAliasResponse : Type 0 where
  pub id : Text
  pub canonical_id : Text
  pub mount_accessor : Text
  pub name : Text
