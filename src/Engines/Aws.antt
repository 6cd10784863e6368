-- ===== src/Engines/Aws.antt =====
-- api/aws.rs, types/aws.rs: the Aws handler, and its types.
use vault_client_rs.Prelude.{ℕ, Option, none, some, List}
use vault_client_rs.Prelude.Text.{Text, codes}
use vault_client_rs.Json.{Json, Number, number, string, object, end}
use vault_client_rs.Client.{VaultClient}
use vault_client_rs.Effect.{Env, get, post, Method, World, M}
use vault_client_rs.Execute.{exec_with_data, exec_empty, exec_list}
use vault_client_rs.Wire.{Decode, below, named, unless_none, array_of, json_itself}

pub record AwsConfigRootRequest : Type 0 where
  pub access_key : Option Text
  pub secret_key : Option Text
  pub region : Option Text
  pub iam_endpoint : Option Text
  pub sts_endpoint : Option Text
  pub max_retries : Option Number

unfoldable pub aws_config_root_request_body : AwsConfigRootRequest → Json
aws_config_root_request_body p = object (
    unless_none string (codes "access_key") p.access_key (
      unless_none string (codes "secret_key") p.secret_key (
        unless_none string (codes "region") p.region (
          unless_none string (codes "iam_endpoint") p.iam_endpoint (
            unless_none string (codes "sts_endpoint") p.sts_endpoint
              (unless_none number (codes "max_retries") p.max_retries end))))))

pub record AwsConfigRoot : Type 0 where
  pub access_key : Text
  pub region : Text
  pub iam_endpoint : Text
  pub sts_endpoint : Text
  pub max_retries : Number

pub record AwsRoleRequest : Type 0 where
  pub credential_type : Option Text
  pub role_arns : Option (List Text)
  pub policy_arns : Option (List Text)
  pub policy_document : Option Text
  pub iam_groups : Option (List Text)
  pub iam_tags : Option Json
  pub default_sts_ttl : Option Text
  pub max_sts_ttl : Option Text
  pub user_path : Option Text
  pub permissions_boundary_arn : Option Text

unfoldable pub aws_role_request_body : AwsRoleRequest → Json
aws_role_request_body p = object (
    unless_none string (codes "credential_type") p.credential_type (
      unless_none (array_of string) (codes "role_arns") p.role_arns (
        unless_none (array_of string) (codes "policy_arns") p.policy_arns (
          unless_none string (codes "policy_document") p.policy_document (
            unless_none (array_of string) (codes "iam_groups") p.iam_groups (
              unless_none json_itself (codes "iam_tags") p.iam_tags (
                unless_none string (codes "default_sts_ttl") p.default_sts_ttl (
                  unless_none string (codes "max_sts_ttl") p.max_sts_ttl (
                    unless_none string (codes "user_path") p.user_path (
                      unless_none string (codes "permissions_boundary_arn")
                        p.permissions_boundary_arn end))))))))))

pub record AwsRole : Type 0 where
  pub credential_type : Text
  pub role_arns : List Text
  pub policy_arns : List Text
  pub policy_document : Text
  pub iam_groups : List Text
  pub default_sts_ttl : ℕ
  pub max_sts_ttl : ℕ

pub record AwsCredentials : Type 0 where
  pub access_key : Text
  pub secret_key : Text
  pub security_token : Option Text
  pub arn : Option Text

pub record AwsStsRequest : Type 0 where
  pub role_arn : Option Text
  pub ttl : Option Text

unfoldable pub aws_sts_request_body : AwsStsRequest → Json
aws_sts_request_body p =
    object (
      unless_none string (codes "role_arn") p.role_arn (unless_none string (codes "ttl") p.ttl end))

module _ (env : Env) (waiting : World → World) (c : VaultClient) (mount : Text) where
  unfoldable pub configure_root : AwsConfigRootRequest → M (Unit {0})
  configure_root params =
      exec_empty env waiting c post (below mount "/config/root")
        (some (aws_config_root_request_body params))

  unfoldable pub read_config_root : Decode AwsConfigRoot → M AwsConfigRoot
  read_config_root decode =
      exec_with_data env waiting c decode get (below mount "/config/root") none

  unfoldable pub rotate_root : M (Unit {0})
  rotate_root = exec_empty env waiting c post (below mount "/config/rotate-root") none

  unfoldable pub create_role : Text → AwsRoleRequest → M (Unit {0})
  create_role name params =
      exec_empty env waiting c post (named mount "/roles/" name)
        (some (aws_role_request_body params))

  unfoldable pub read_role : Decode AwsRole → Text → M AwsRole
  read_role decode name = exec_with_data env waiting c decode get (named mount "/roles/" name) none

  unfoldable pub delete_role : Text → M (Unit {0})
  delete_role name = exec_empty env waiting c Method.delete (named mount "/roles/" name) none

  unfoldable pub list_roles : M (List Text)
  list_roles = exec_list env waiting c (below mount "/roles")

  unfoldable pub get_credentials : Decode AwsCredentials → Text → M AwsCredentials
  get_credentials decode name =
      exec_with_data env waiting c decode get (named mount "/creds/" name) none

  unfoldable pub get_sts_credentials :
      Decode AwsCredentials → Text → AwsStsRequest → M AwsCredentials
  get_sts_credentials decode name params =
      exec_with_data env waiting c decode post (named mount "/sts/" name)
        (some (aws_sts_request_body params))
