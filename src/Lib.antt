-- ===== src/Lib.antt =====
-- rust-mcp-core: a server for the Model Context Protocol that is driven by a configuration.
--
-- The library has a module for each part of the program, and modules below it for what is proved:
--
--   * Tasks (src/engine/tasks.rs): the store of asynchronous tasks. A store is a map from identifiers
--     to entries and a log of what is done to tokens, handles and waiters; an operation takes the
--     readings of the clock and the fresh identifiers that the code asks the outside for.
--   * Pagination (src/engine/pagination.rs): cursors and pages of a list. Base64 is a parameter.
--   * Templating (src/engine/templating.rs): the templates of tools. The loop over the characters of a
--     template or a path is a state that takes one character after the other.
--   * ValueHelpers (src/engine/value_helpers.rs) and ToolResponse (src/engine/tool_response.rs): fields
--     taken out of a JSON object, and the content blocks that a tool's response is built of. They use
--     Templating; the types that serde makes of a value are the parameter `Wire`.
--   * ResponseLimits (src/engine/orchestration/response_limits.rs): the limits on a result's size.
--   * Progress (src/plugins/progress.rs): the rate limit on progress notifications.
--   * LogSafety (src/log_safety.rs): texts cut for the log.
--   * Auth (src/auth/inbound/token.rs, claims.rs and authorization.rs, and the providers of
--     src/config/types/auth.rs): the decision on a request. The JWT library, the introspection endpoint,
--     the plugins, and the issuer and keys that a provider fetches are the parameter `Services`.
--   * Policy (src/http/policy.rs): the guard on methods and headers, and the status of session errors.
--     Bodies and headers are axum's: the parameter `Http`.
--   * RateLimit (src/http/hardening.rs): the token buckets that limit new sessions, and below it, in
--     Limiter, the limits that a configuration asks for. A taking of a token has the reading of the
--     clock that it makes; the layers of the library are the parameter `finish` and a list of their
--     settings.
--   * Sessions (src/http/hardening.rs): the session manager, over the one of the protocol's crate, which
--     is a parameter. The check of the limit and the making of a session are separate steps.
--   * Outbound (src/http/outbound_pipeline.rs): the headers of an outbound request, and the retry loop,
--     with the operation, its state and the token of cancellation as parameters.
--   * Upstream and Config (src/config/types/): the types of the configuration, with the fields that the
--     modules here read, and the resolution of secrets.
--   * TokenConfig (src/auth/outbound/config.rs) and Tokens (token_cache.rs and token_manager.rs beside
--     it): the key of an upstream's token, the cache, and a call for a token. The exchange is a parameter;
--     a lock is the order in which calls have it.
--   * Discovery (src/auth/inbound/provider.rs): the issuer and the keys of an auth provider, with the
--     caches; they are what Auth takes of a provider. What other calls do while one waits for a lock is a parameter.
--   * SchemaCache (src/engine/schema_validator_cache.rs): the cache of compiled schemas.
--   * Completion (src/engine/completion.rs): the providers of completions and their inline answers.
--   * Loader (src/config/loader.rs): the expansion of environment variables, as a scan of one character
--     after the other, and the checks of a configuration. The parsers, the validator of the schema and
--     the reader of types are the parameter `Readers`.
--   * HttpClient (src/http/client.rs): a request sent through the client, with its chunks read against
--     the limit on a response. The transport is a parameter.
--   * HttpExecutor (src/engine/http_executor.rs): the request that a tool's configuration makes.
--   * Plugins (src/plugins/registry.rs and src/engine/orchestration/helpers.rs): the registry of plugins,
--     its operations, and the allowlists that a configuration makes of it.
--   * Engine (src/engine/orchestration.rs and orchestration/tool_dispatch.rs): the dispatch of a tool's
--     call. PluginTool, HttpTool, HttpResult and Dispatch below it have the definitions. Plugins, tokens,
--     the transport and the validators are the parameter `Services`, of which only a plugin's call may panic.
--   * TaskRequests (src/engine/handler/task_requests.rs and common.rs): the requests on tasks, over Tasks,
--     with the key of the peer that makes them.
--   * ClientNotifications (src/engine/client_notifications.rs): the hub that tells peers of changes.
--   * Errors (src/errors.rs) and Protocol: the error values and the types of the protocol's crate that
--     the code uses, with those fields of them that it reads or writes.
--   * Json, Text, Common: JSON values, the string functions of Rust's library, lists, results and maps.
--
-- A map is an association list; where the code iterates a map, the order is the list's. Fuel: `follow`
-- of Pagination/Pages takes one more request than there are items, and the retry loop of Outbound/Retry,
-- which the engine's calls use too, as many units as attempts are allowed; their theorems show that this
-- is enough. Numbers are natural numbers with the bounds of their machine type written out.
--
-- Not modelled: the wiring of futures, sockets and the third-party crates (what they give is a
-- parameter of the definition that uses it), the building of the engine, the catalogs of prompts and
-- resources, the context given to plugins, the runtime with its reloads, the routes of the HTTP
-- layer, and the auth middleware.
pub mod Auth
pub mod ClientNotifications
pub mod Common
pub mod Completion
pub mod Config
pub mod Discovery
pub mod Engine
pub mod Errors
pub mod HttpClient
pub mod HttpExecutor
pub mod Json
pub mod Loader
pub mod LogSafety
pub mod Outbound
pub mod Pagination
pub mod Plugins
pub mod Policy
pub mod Progress
pub mod Protocol
pub mod RateLimit
pub mod ResponseLimits
pub mod SchemaCache
pub mod Sessions
pub mod TaskRequests
pub mod Tasks
pub mod Templating
pub mod Text
pub mod TokenConfig
pub mod Tokens
pub mod ToolResponse
pub mod Upstream
pub mod ValueHelpers
