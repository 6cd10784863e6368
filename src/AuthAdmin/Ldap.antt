-- ===== src/AuthAdmin/Ldap.antt =====
-- api/auth/ldap.rs, types/auth.rs: the Ldap auth handler, less its login, and its types.
use vault_client_rs.Prelude.{Bool, Option, none, some, List, ◌++◌}
use vault_client_rs.Prelude.Text.{Text, codes}
use vault_client_rs.Json.{Json, string, bool, object, end, field}
use vault_client_rs.EncodePath.{encode_path}
use vault_client_rs.Client.{VaultClient}
use vault_client_rs.Effect.{Env, get, post, Method, World, M}
use vault_client_rs.Execute.{exec_with_data, exec_empty, exec_list}
use vault_client_rs.Wire.{Decode, unless_none, array_of}

pub record LdapConfigRequest : Type 0 where
  pub url : Text
  pub userdn : Option Text
  pub userattr : Option Text
  pub groupdn : Option Text
  pub groupattr : Option Text
  pub groupfilter : Option Text
  pub binddn : Option Text
  pub bindpass : Option Text
  pub starttls : Option Bool
  pub insecure_tls : Option Bool
  pub certificate : Option Text
  pub token_policies : Option (List Text)
  pub token_ttl : Option Text
  pub token_max_ttl : Option Text

unfoldable pub ldap_config_request_body : LdapConfigRequest → Json
ldap_config_request_body p = object (
    field (codes "url") (string p.url) (
      unless_none string (codes "userdn") p.userdn (
        unless_none string (codes "userattr") p.userattr (
          unless_none string (codes "groupdn") p.groupdn (
            unless_none string (codes "groupattr") p.groupattr (
              unless_none string (codes "groupfilter") p.groupfilter (
                unless_none string (codes "binddn") p.binddn (
                  unless_none string (codes "bindpass") p.bindpass (
                    unless_none bool (codes "starttls") p.starttls (
                      unless_none bool (codes "insecure_tls") p.insecure_tls (
                        unless_none string (codes "certificate") p.certificate (
                          unless_none (array_of string) (codes "token_policies") p.token_policies (
                            unless_none string (codes "token_ttl") p.token_ttl (
                              unless_none string (codes "token_max_ttl") p.token_max_ttl
                                end))))))))))))))

pub record LdapConfig : Type 0 where
  pub url : Text
  pub userdn : Text
  pub userattr : Text
  pub groupdn : Text
  pub groupattr : Text
  pub groupfilter : Text
  pub starttls : Bool
  pub insecure_tls : Bool

pub record LdapGroupRequest : Type 0 where
  pub policies : Option (List Text)

unfoldable pub ldap_group_request_body : LdapGroupRequest → Json
ldap_group_request_body p = object (unless_none (array_of string) (codes "policies") p.policies end)

pub record LdapGroup : Type 0 where
  pub policies : List Text

pub record LdapUserRequest : Type 0 where
  pub policies : Option (List Text)
  pub groups : Option (List Text)

unfoldable pub ldap_user_request_body : LdapUserRequest → Json
ldap_user_request_body p = object (
    unless_none (array_of string) (codes "policies") p.policies
      (unless_none (array_of string) (codes "groups") p.groups end))

pub record LdapUser : Type 0 where
  pub policies : List Text
  pub groups : List Text

module _ (env : Env) (waiting : World → World) (c : VaultClient) (mount : Text) where
  unfoldable pub configure : LdapConfigRequest → M (Unit {0})
  configure cfg =
      exec_empty env waiting c post (codes "auth/" ++ (mount ++ codes "/config"))
        (some (ldap_config_request_body cfg))

  unfoldable pub read_config : Decode LdapConfig → M LdapConfig
  read_config decode =
      exec_with_data env waiting c decode get (codes "auth/" ++ (mount ++ codes "/config")) none

  unfoldable pub write_group : Text → LdapGroupRequest → M (Unit {0})
  write_group name params =
      exec_empty env waiting c post
        (codes "auth/" ++ (mount ++ (codes "/groups/" ++ encode_path name)))
        (some (ldap_group_request_body params))

  unfoldable pub read_group : Decode LdapGroup → Text → M LdapGroup
  read_group decode name =
      exec_with_data env waiting c decode get
        (codes "auth/" ++ (mount ++ (codes "/groups/" ++ encode_path name))) none

  unfoldable pub delete_group : Text → M (Unit {0})
  delete_group name =
      exec_empty env waiting c Method.delete
        (codes "auth/" ++ (mount ++ (codes "/groups/" ++ encode_path name))) none

  unfoldable pub list_groups : M (List Text)
  list_groups = exec_list env waiting c (codes "auth/" ++ (mount ++ codes "/groups"))

  unfoldable pub write_user : Text → LdapUserRequest → M (Unit {0})
  write_user name params =
      exec_empty env waiting c post
        (codes "auth/" ++ (mount ++ (codes "/users/" ++ encode_path name)))
        (some (ldap_user_request_body params))

  unfoldable pub read_user : Decode LdapUser → Text → M LdapUser
  read_user decode name =
      exec_with_data env waiting c decode get
        (codes "auth/" ++ (mount ++ (codes "/users/" ++ encode_path name))) none

  unfoldable pub delete_user : Text → M (Unit {0})
  delete_user name =
      exec_empty env waiting c Method.delete
        (codes "auth/" ++ (mount ++ (codes "/users/" ++ encode_path name))) none

  unfoldable pub list_users : M (List Text)
  list_users = exec_list env waiting c (codes "auth/" ++ (mount ++ codes "/users"))
