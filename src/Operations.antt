-- ===== src/Operations.antt =====
-- api/traits.rs: the operations of each engine as a record, which the handlers implement and which the
-- mocks of crates/vault-client-rs-test replace; and blocking/mod.rs, which runs each of them to its end.
pub mod Transit
pub mod Pki
pub mod Database
pub mod Ssh
pub mod Totp
pub mod Consul
pub mod Nomad
pub mod Rabbitmq
pub mod Identity
pub mod AwsSecrets
pub mod AzureSecrets
pub mod GcpSecrets
pub mod TerraformCloud
pub mod Cubbyhole
pub mod TokenAuth
pub mod AppRoleAuth
pub mod K8sAuth
pub mod UserpassAuth
pub mod LdapAuth
pub mod CertAuth
pub mod GithubAuth
pub mod OidcAuth
pub mod AwsAuth
pub mod AzureAuth
pub mod GcpAuth
pub mod RadiusAuth
pub mod KerberosAuth
pub mod Sys
pub mod SysBlocking
pub mod Kv1
pub mod Kv2
pub mod BlockingPaths
pub mod BlockingKv2
use vault_client_rs.Prelude.{Bool, if◌then◌else◌}
use vault_client_rs.Effect.{M, panicked}

-- `Runtime::block_on`, which panics where a runtime is running already and polls nothing there.
unfoldable pub block_on : {A : Type 0} → Bool → M A → M A
block_on in_runtime m w = if in_runtime then (panicked, w) else m w
