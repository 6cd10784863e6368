-- ===== src/AuthAdmin/Aws.antt =====
-- api/auth/aws.rs, types/aws.rs: the Aws auth handler, less its login, and its types.
use vault_client_rs.Prelude.{ℕ, Option, none, some, List, ◌++◌}
use vault_client_rs.Prelude.Text.{Text, codes}
use vault_client_rs.Json.{Json, Number, number, string, object, end}
use vault_client_rs.EncodePath.{encode_path}
use vault_client_rs.Client.{VaultClient}
use vault_client_rs.Effect.{Env, get, post, Method, World, M}
use vault_client_rs.Execute.{exec_with_data, exec_empty, exec_list}
use vault_client_rs.Wire.{Decode, unless_none, array_of}

pub record AwsAuthConfigRequest : Type 0 where
  pub access_key : Option Text
  pub secret_key : Option Text
  pub endpoint : Option Text
  pub iam_endpoint : Option Text
  pub sts_endpoint : Option Text
  pub sts_region : Option Text
  pub max_retries : Option Number

unfoldable pub aws_auth_config_request_body : AwsAuthConfigRequest → Json
aws_auth_config_request_body p = object (
    unless_none string (codes "access_key") p.access_key (
      unless_none string (codes "secret_key") p.secret_key (
        unless_none string (codes "endpoint") p.endpoint (
          unless_none string (codes "iam_endpoint") p.iam_endpoint (
            unless_none string (codes "sts_endpoint") p.sts_endpoint (
              unless_none string (codes "sts_region") p.sts_region
                (unless_none number (codes "max_retries") p.max_retries end)))))))

pub record AwsAuthConfig : Type 0 where
  pub access_key : Text
  pub endpoint : Text
  pub iam_endpoint : Text
  pub sts_endpoint : Text
  pub sts_region : Text
  pub max_retries : Number

pub record AwsAuthRoleRequest : Type 0 where
  pub auth_type : Option Text
  pub bound_ami_id : Option (List Text)
  pub bound_account_id : Option (List Text)
  pub bound_region : Option (List Text)
  pub bound_vpc_id : Option (List Text)
  pub bound_subnet_id : Option (List Text)
  pub bound_iam_role_arn : Option (List Text)
  pub bound_iam_instance_profile_arn : Option (List Text)
  pub bound_iam_principal_arn : Option (List Text)
  pub bound_ec2_instance_id : Option (List Text)
  pub token_ttl : Option Text
  pub token_max_ttl : Option Text
  pub token_policies : Option (List Text)

unfoldable pub aws_auth_role_request_body : AwsAuthRoleRequest → Json
aws_auth_role_request_body p = object (
    unless_none string (codes "auth_type") p.auth_type (
      unless_none (array_of string) (codes "bound_ami_id") p.bound_ami_id (
        unless_none (array_of string) (codes "bound_account_id") p.bound_account_id (
          unless_none (array_of string) (codes "bound_region") p.bound_region (
            unless_none (array_of string) (codes "bound_vpc_id") p.bound_vpc_id (
              unless_none (array_of string) (codes "bound_subnet_id") p.bound_subnet_id (
                unless_none (array_of string) (codes "bound_iam_role_arn") p.bound_iam_role_arn (
                  unless_none (array_of string) (codes "bound_iam_instance_profile_arn")
                    p.bound_iam_instance_profile_arn
                    (unless_none (array_of string) (codes "bound_iam_principal_arn")
                      p.bound_iam_principal_arn
                      (unless_none (array_of string) (codes "bound_ec2_instance_id")
                        p.bound_ec2_instance_id
                        (unless_none string (codes "token_ttl") p.token_ttl (
                          unless_none string (codes "token_max_ttl") p.token_max_ttl (
                            unless_none (array_of string) (codes "token_policies") p.token_policies
                              end)))))))))))))

pub record AwsAuthRoleInfo : Type 0 where
  pub auth_type : Text
  pub bound_ami_id : List Text
  pub bound_account_id : List Text
  pub bound_region : List Text
  pub bound_iam_role_arn : List Text
  pub bound_iam_principal_arn : List Text
  pub token_ttl : ℕ
  pub token_max_ttl : ℕ
  pub token_policies : List Text

pub record AwsAuthLoginRequest : Type 0 where
  pub role : Option Text
  pub identity : Option Text
  pub signature : Option Text
  pub pkcs7 : Option Text
  pub nonce : Option Text
  pub iam_http_request_method : Option Text
  pub iam_request_url : Option Text
  pub iam_request_body : Option Text
  pub iam_request_headers : Option Text

unfoldable pub aws_auth_login_request_body : AwsAuthLoginRequest → Json
aws_auth_login_request_body p = object (
    unless_none string (codes "role") p.role (
      unless_none string (codes "identity") p.identity (
        unless_none string (codes "signature") p.signature (
          unless_none string (codes "pkcs7") p.pkcs7 (
            unless_none string (codes "nonce") p.nonce (
              unless_none string (codes "iam_http_request_method") p.iam_http_request_method (
                unless_none string (codes "iam_request_url") p.iam_request_url (
                  unless_none string (codes "iam_request_body") p.iam_request_body (
                    unless_none string (codes "iam_request_headers") p.iam_request_headers
                      end)))))))))

module _ (env : Env) (waiting : World → World) (c : VaultClient) (mount : Text) where
  unfoldable pub configure : AwsAuthConfigRequest → M (Unit {0})
  configure cfg =
      exec_empty env waiting c post (codes "auth/" ++ (mount ++ codes "/config/client"))
        (some (aws_auth_config_request_body cfg))

  unfoldable pub read_config : Decode AwsAuthConfig → M AwsAuthConfig
  read_config decode =
      exec_with_data env waiting c decode get (codes "auth/" ++ (mount ++ codes "/config/client"))
        none

  unfoldable pub create_role : Text → AwsAuthRoleRequest → M (Unit {0})
  create_role name params =
      exec_empty env waiting c post
        (codes "auth/" ++ (mount ++ (codes "/role/" ++ encode_path name)))
        (some (aws_auth_role_request_body params))

  unfoldable pub read_role : Decode AwsAuthRoleInfo → Text → M AwsAuthRoleInfo
  read_role decode name =
      exec_with_data env waiting c decode get
        (codes "auth/" ++ (mount ++ (codes "/role/" ++ encode_path name))) none

  unfoldable pub delete_role : Text → M (Unit {0})
  delete_role name =
      exec_empty env waiting c Method.delete
        (codes "auth/" ++ (mount ++ (codes "/role/" ++ encode_path name))) none

  unfoldable pub list_roles : M (List Text)
  list_roles = exec_list env waiting c (codes "auth/" ++ (mount ++ codes "/role"))
