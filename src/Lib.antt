-- ===== src/Lib.antt =====
-- The Rust client for HashiCorp Vault, crates/vault-client-rs: a model of its core and proofs about it.
-- Paths of sources are below crates/vault-client-rs/src unless they are given in full.
--
-- The parts and how they interact. A caller uses a handler (KV, a login), which builds a request path
-- and a body and calls one of the `exec_*` functions of client/async_client.rs. These call `execute`,
-- which keeps the token valid (except for logins) and then calls `execute_raw`. That asks the circuit
-- breaker, adds the headers, runs the retry loop `send_with_retry`, and records how it ended with the
-- breaker. Keeping the token valid means a renewal over `execute_raw`, with a login by the configured
-- auth method as the fallback; a login goes through `execute` again, past the upkeep of the token. The
-- tasks of renewal.rs renew the token and leases in the background.
--
-- State. What the client shares behind its `Arc` and changes is the record `World` of Effect (the token
-- with its lock's poisoning, the circuit breaker), together with the clock and the logs of requests,
-- sleeps and callbacks that an observer has. An operation is an action `M A`, from a world to an exit
-- (a value, an error or a panic) and a world; a world that an error leaves keeps what was written before
-- it. The libraries and the server are the record `Env`, an argument of the operations: the answer to
-- the n-th request, its latency, the random numbers, URL parsing, JSON decoding and the rounding of
-- `mul_f64`. Time is in nanoseconds.
--
-- Files, and the sources that they model:
--   VaultError        types/error.rs: the errors and their classifiers
--   CircuitBreaker    circuit_breaker.rs; Invariant, Trips and Windows hold its theorems
--   Json              the constructors of `serde_json::Value`
--   VaultResponse     types/response.rs and `ListResponse` of types/kv.rs: the data
--   Effect            the world, the monad, the outside; `extract_errors` of client/async_client.rs
--   Client            client/async_client.rs: `ClientConfig`, `VaultClientInner` and the views
--   Retry             `send_with_retry`, cut into backoff, sending, and the verdict on a status
--   Request           `inject_headers` and `execute_raw`
--   Token             `set_token`, `update_token_from_auth`, `ensure_valid_token`, `try_re_authenticate`,
--                     `renew_token_via_api`; Callers runs any number of callers of
--                     `ensure_valid_token` over the renewal lock
--   Execute           `execute`, the `exec_*` functions, `read`, `write`, `list`
--   EncodePath        `encode_path`; Dots describes the dot segments that `Url::parse` removes,
--                     Plain the bytes and segments that it takes as they stand
--   Builder           `ClientBuilder`: `build`, `from_env`, and the blocking builder
--   VaultPath         types/secret.rs: `validate_vault_path` and the path types
--   Redaction         types/redaction.rs, and the Debug output of types/response.rs
--   Auth              api/auth/: the logins and the auth methods
--   Renewal           renewal.rs: the daemon and the watchers; Channel is the task of
--                     `watch_lease_events` and its channel as a step relation
--   Kv                api/kv1.rs (V1), api/kv2.rs (V2), types/kv.rs
--   Wire              what the handlers share: decoders, paths, the JSON of parameter types
--   Engines           api/: the handlers of the other secrets engines and types/: their types, a module
--                     per engine
--   Sys               api/sys/ and types/sys.rs, a module per file
--   AuthAdmin         api/auth/ and types/auth.rs: what the auth handlers do beside logging in
--   Operations        api/traits.rs: a record of operations per trait, with the implementation by the
--                     handler, and the same record run by blocking/mod.rs
--   Mock              crates/vault-client-rs-test/src/mock.rs: the mocks of three of the traits
--   Prelude           shared names, tests on numbers, texts as bytes, durations
--   Examples          concrete clients and servers, and each result at a concrete input
--
-- Bounds and fuel. Integers are natural numbers; where the source has a bound it is written out: the
-- wrap-around of the breaker's u32 counter, the saturating power and the checked multiplication of the
-- backoff, the checked addition of an expiry, the parsing of a u64. The retry loop is recursion on the
-- `max_retries` + 1 rounds of its range; that they never run out is a result below. A decimal number
-- is written with at most twenty digits, which is enough for a u64.
--
-- Concurrency. The functions are run by one caller. What others do to the world while it waits for the
-- renewal lock is an argument, and so is the winner of each `select!` in a round of a background task.
-- Token.Callers and Renewal.Channel are step relations, in which the scheduler and the outside choose
-- each step.
--
-- Not modelled: tracing; the HTTP client itself and TLS; the wiping of secrets; the redacting Debug
-- implementations of the engines' types, which are as those of the envelope; the setters and views of the
-- blocking client, which only call those of the client; the WireMock helpers of
-- crates/vault-client-rs-test. Deserialisation is serde's: an operation is given the decoder of its
-- response. A parameter type is serialised as its derived `Serialize` says, with the members in the
-- order of the fields, which JSON gives no meaning.
pub mod Prelude
pub mod VaultError
pub mod CircuitBreaker
pub mod Json
pub mod VaultResponse
pub mod Effect
pub mod Client
pub mod Retry
pub mod Request
pub mod Token
pub mod Execute
pub mod EncodePath
pub mod VaultPath
pub mod Redaction
pub mod Auth
pub mod Renewal
pub mod Kv
pub mod Wire
pub mod Engines
pub mod Sys
pub mod AuthAdmin
pub mod Operations
pub mod Mock
pub mod Builder
pub mod Examples
