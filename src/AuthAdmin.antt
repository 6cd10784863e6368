-- ===== src/AuthAdmin.antt =====
-- api/auth/: what the auth handlers do beside logging in, a module per file.
pub mod Token
pub mod Approle
pub mod Userpass
pub mod Ldap
pub mod Kubernetes
pub mod Github
pub mod Oidc
pub mod Cert
pub mod Radius
pub mod Kerberos
pub mod Aws
pub mod Azure
pub mod Gcp
