-- ===== src/Auth.antt =====
-- api/auth/: the logins, and the self-contained login credentials of api/auth/mod.rs that a client
-- can be given as its auth method.
pub mod Installed
pub mod Bounded
use vault_client_rs.Prelude.{String, Option, none, some, ◌++◌, ◌⊎◌, inl, inr}
use vault_client_rs.Prelude.Text.{Text, codes}
use vault_client_rs.Json.{Json, string, object, Fields, end, field}
use vault_client_rs.VaultError.{VaultError, empty_response}
use vault_client_rs.VaultResponse.{AuthInfo}
use vault_client_rs.EncodePath.{encode_path}
use vault_client_rs.Client.{Overrides, VaultClient}
use vault_client_rs.Effect.{Env, post, World, M, pure, raise, ok_or, ◌>>=◌, ◌>>◌}
use vault_client_rs.Token.{update_token_from_auth}
use vault_client_rs.Execute.{exec_with_auth}

abbrev pub member : String → Text → Fields → Fields
member name value rest = field (codes name) (string value) rest

-- `if let Some(v) = value { body[name] = … }`.
abbrev member_if : String → Option Text → Fields → Fields
member_if name none rest = rest
member_if name (some v) rest = member name v rest

-- `auth/{mount}/login`, for a mount as the accessors store it.
unfoldable pub login_path : Text → Text
login_path mount = codes "auth/" ++ (encode_path mount ++ codes "/login")

-- `auth/{mount}/login/{username}`.
unfoldable pub user_login_path : Text → Text → Text
user_login_path mount username =
    codes "auth/" ++ (encode_path mount ++ (codes "/login" ++ (codes "/" ++ encode_path username)))

module _ (env : Env) (waiting : World → World) (c : VaultClient) where
  -- The end of every login: ask, take the `auth` of the envelope, and store its token.
  unfoldable pub log_in : Text → Option Json → M AuthInfo
  log_in path body w =
      (do
        resp ← exec_with_auth env waiting c env.json_value post path body
        auth ← ok_or resp.auth empty_response
        update_token_from_auth c auth
        pure auth)
        w

  unfoldable pub approle_login : Text → Text → Text → M AuthInfo
  unfolding log_in
  approle_login mount role_id secret_id =
      log_in (login_path mount)
        (some (object (member "role_id" role_id (member "secret_id" secret_id end))))

  -- kubernetes.rs, gcp.rs, and `login_jwt` of oidc.rs.
  unfoldable pub jwt_login : Text → Text → Text → M AuthInfo
  unfolding log_in
  jwt_login mount role jwt =
      log_in (login_path mount) (some (object (member "role" role (member "jwt" jwt end))))

  -- userpass.rs, ldap.rs and radius.rs.
  unfoldable pub password_login : Text → Text → Text → M AuthInfo
  unfolding log_in
  password_login mount username password =
      log_in (user_login_path mount username) (some (object (member "password" password end)))

  unfoldable pub github_login : Text → Text → M AuthInfo
  unfolding log_in
  github_login mount token = log_in (login_path mount) (some (object (member "token" token end)))

  unfoldable pub kerberos_login : Text → Text → M AuthInfo
  unfolding log_in
  kerberos_login mount authorization =
      log_in (login_path mount) (some (object (member "authorization" authorization end)))

  cert_body : Option Text → Option Json
  cert_body none = none
  cert_body (some name) = some (object (member "name" name end))

  unfoldable pub cert_login : Text → Option Text → M AuthInfo
  unfolding log_in cert_body
  cert_login mount name = log_in (login_path mount) (cert_body name)

  -- The serialised `AwsAuthLoginRequest`, or the error of `to_body`.
  unfoldable pub aws_login : Text → VaultError ⊎ Json → M AuthInfo
  unfolding log_in
  aws_login mount (inl e) = raise e
  aws_login mount (inr body) = log_in (login_path mount) (some body)

  unfoldable pub azure_login :
      Text → Text → Text → Option Text → Option Text → Option Text → Option Text → M AuthInfo
  unfolding log_in
  azure_login mount role jwt subscription_id resource_group_name vm_name vmss_name =
      log_in (login_path mount) (
        some (
          object (
            member "role" role (
              member "jwt" jwt (
                member_if "subscription_id" subscription_id (
                  member_if "resource_group_name" resource_group_name
                    (member_if "vm_name" vm_name (member_if "vmss_name" vmss_name end))))))))

-- The implementations of `AuthMethod`, with their fields.
pub data Login : Type 0 where
  approle : Text → Text → Text → Login
  k8s : Text → Text → Text → Login
  userpass : Text → Text → Text → Login
  ldap : Text → Text → Text → Login
  github : Text → Text → Login
  jwt : Text → Text → Text → Login
  aws : VaultError ⊎ Json → Text → Login
  azure : Text → Text → Option Text → Option Text → Option Text → Option Text → Text → Login
  gcp : Text → Text → Text → Login

-- `AuthMethod::login`.
unfoldable pub login : Env → (World → World) → Login → VaultClient → M AuthInfo
unfolding approle_login jwt_login password_login github_login aws_login azure_login
login env waiting (approle role_id secret_id mount) c =
    approle_login env waiting c mount role_id secret_id
login env waiting (k8s role token mount) c = jwt_login env waiting c mount role token
login env waiting (userpass username password mount) c =
    password_login env waiting c mount username password
login env waiting (ldap username password mount) c =
    password_login env waiting c mount username password
login env waiting (github token mount) c = github_login env waiting c mount token
login env waiting (jwt role token mount) c = jwt_login env waiting c mount role token
login env waiting (aws params mount) c = aws_login env waiting c mount params
login env waiting (azure role token sub rg vm vmss mount) c =
    azure_login env waiting c mount role token sub rg vm vmss
login env waiting (gcp role token mount) c = jwt_login env waiting c mount role token

abbrev pub with_method : Option (Overrides → M AuthInfo) → VaultClient → VaultClient
with_method o c = record c { inner = record (c.inner) { auth_method = o } }

-- `ClientBuilder::auth_method`: the method logs in through the client that calls it. What it is given
-- here is that client with no method; `login-with_method` says that this is no restriction.
unfoldable pub install : Env → (World → World) → Login → VaultClient → VaultClient
install env waiting l c =
    with_method (some (λ view. login env waiting l (with_method none (record c { view = view })))) c
