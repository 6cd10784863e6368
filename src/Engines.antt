-- ===== src/Engines.antt =====
-- The secrets engines other than KV: a module per handler of api/, whose operations build a path and a
-- body and call an `exec_*` function.
pub mod Transit
pub mod Pki
pub mod Database
pub mod Identity
pub mod Ssh
pub mod Totp
pub mod Cubbyhole
pub mod Aws
pub mod Azure
pub mod Consul
pub mod Gcp
pub mod Nomad
pub mod Rabbitmq
pub mod Terraform
