-- ===== src/Config.antt =====
-- src/config/types/: the parts of the configuration that the loader reads.
pub mod Samples
use rust_mcp_core.Common.{
  Bool, List, Option, String, [], false, if◌then◌else◌, inl, inr, is_some, nat_eq, none, refl, some,
  string_eq, true, ℕ, ◌&&◌, ◌||◌, ◌≡◌, ◌⊎◌,
}
use rust_mcp_core.Common.Map.{Map}
use rust_mcp_core.Json.{Value}
use rust_mcp_core.Policy.{SessionMode}
use rust_mcp_core.ResponseLimits.{ResponseLimitsConfig}
use rust_mcp_core.Upstream.{OutboundHttpConfig, OutboundRetryConfig, UpstreamConfig}
use rust_mcp_core.ValueHelpers.{PluginConfig}

pub record StreamableHttpRateBucketConfig : Type 0 where
  pub capacity : ℕ
  pub refill_per_sec : ℕ

pub data StreamableHttpRateLimitKeySource : Type 0 where
  peer_addr x_forwarded_for : StreamableHttpRateLimitKeySource

pub record StreamableHttpPerIpRateBucketConfig : Type 0 where
  pub capacity : ℕ
  pub refill_per_sec : ℕ
  pub key_source : StreamableHttpRateLimitKeySource

pub record StreamableHttpRateLimitConfig : Type 0 where
  pub enabled : Option Bool
  pub global : Option StreamableHttpRateBucketConfig
  pub per_ip : Option StreamableHttpPerIpRateBucketConfig

pub record StreamableHttpSessionHardeningConfig : Type 0 where
  pub max_sessions : Option ℕ
  pub idle_ttl_secs : Option ℕ
  pub max_lifetime_secs : Option ℕ
  pub creation_rate : Option StreamableHttpRateLimitConfig

pub record StreamableHttpHardeningConfig : Type 0 where
  pub max_request_bytes : ℕ
  pub catch_panics : Bool
  pub sanitize_sensitive_headers : Bool
  pub session : Option StreamableHttpSessionHardeningConfig
  pub rate_limit : Option StreamableHttpRateLimitConfig

-- the session mode and the hardening of `StreamableHttpTransportConfig`
pub record StreamableHttpTransportConfig : Type 0 where
  pub session_mode : SessionMode
  pub hardening : Option StreamableHttpHardeningConfig

pub data TopLevelCombinatorsPolicy : Type 0 where
  off warn error : TopLevelCombinatorsPolicy

pub data CompletionProviderConfig : Type 0 where
  inline_completion : (name : String) (values : List String) → CompletionProviderConfig
  plugin_completion : (name plugin : String) (config : Option Value) → CompletionProviderConfig

pub record CompletionConfig : Type 0 where
  pub enabled : Option Bool
  pub providers : List CompletionProviderConfig

pub data TaskSupport : Type 0 where
  forbidden task_optional task_required : TaskSupport

pub record ExecuteHttpConfig : Type 0 where
  pub upstream : String
  pub method : String
  pub path : String
  pub query : Option Value
  pub headers : Option Value
  pub body : Option Value
  pub retry : Option OutboundRetryConfig
  pub task_support : TaskSupport

pub record ExecutePluginConfig : Type 0 where
  pub plugin : String
  pub config : Option Value
  pub task_support : TaskSupport

pub data ExecuteConfig : Type 0 where
  execute_http : ExecuteHttpConfig → ExecuteConfig
  execute_plugin : ExecutePluginConfig → ExecuteConfig

pub data ContentFallback : Type 0 where
  text_fallback json_text_fallback : ContentFallback

pub data ResponseConfig : Type 0 where
  structured_response :
      (template : Option Value) (content_fallback : Option ContentFallback) → ResponseConfig
  content_response : (items : List Value) → ResponseConfig

-- `ToolConfig`, less what only a list of tools shows
pub record ToolConfig : Type 0 where
  pub name : String
  pub cancellable : Bool
  pub input_schema : Value
  pub output_schema : Option Value
  pub execute : ExecuteConfig
  pub response : Option ResponseConfig

pub record ToolsConfig : Type 0 where
  pub enabled : Option Bool
  pub items : List ToolConfig

pub record TaskCapabilities : Type 0 where
  pub list : Bool
  pub cancel : Bool

pub record TasksConfig : Type 0 where
  pub enabled : Option Bool
  pub capabilities : TaskCapabilities
  pub status_notifications : Bool

-- of the sections of the configuration the parts that the modules here read: `page_size` is the
-- pagination's, the last three are the server's
pub record McpConfig : Type 0 where
  pub top_level_combinators : TopLevelCombinatorsPolicy
  pub streamable_http : StreamableHttpTransportConfig
  pub completion : Option CompletionConfig
  pub tools : Option ToolsConfig
  pub outbound_http : Option OutboundHttpConfig
  pub upstreams : Map String UpstreamConfig
  pub plugins : List PluginConfig
  pub tasks : Option TasksConfig
  pub page_size : Option ℕ
  pub response_limits : Option ResponseLimitsConfig
  pub expose_internal_error_details : Bool
  pub log_payload_max_bytes : ℕ

-- `enabled != Some(false)`, the `is_active` of each of these
abbrev pub is_active : Option Bool → Bool
is_active (some false) = false
is_active _ = true

abbrev pub has_any_bucket : StreamableHttpRateLimitConfig → Bool
has_any_bucket r = is_some r.global || is_some r.per_ip

abbrev active_items : Option ToolsConfig → List ToolConfig
active_items none = []
active_items (some tools) = if is_active tools.enabled then tools.items else []

abbrev pub tools_items : McpConfig → List ToolConfig
tools_items config = active_items config.tools

abbrev pub retry_of : ExecuteConfig → Option OutboundRetryConfig
retry_of (execute_http execute) = execute.retry
retry_of (execute_plugin execute) = none

-- `ExecuteConfig::task_support`
abbrev pub task_support : ExecuteConfig → TaskSupport
task_support (execute_http execute) = execute.task_support
task_support (execute_plugin execute) = execute.task_support

abbrev pub on_tasks : McpConfig → (TasksConfig → Bool) → Bool
on_tasks config test = elim config.tasks [
  | none ↦ false
  | some tasks ↦ is_active tasks.enabled && test tasks
]

abbrev pub tasks_active : McpConfig → Bool
tasks_active config = on_tasks config (λ tasks. true)

abbrev pub tasks_status_notifications_active : McpConfig → Bool
tasks_status_notifications_active config = on_tasks config (λ tasks. tasks.status_notifications)

abbrev pub tasks_list_active : McpConfig → Bool
tasks_list_active config = on_tasks config (λ tasks. tasks.capabilities.list)

abbrev pub tasks_cancel_active : McpConfig → Bool
tasks_cancel_active config = on_tasks config (λ tasks. tasks.capabilities.cancel)

-- To split on the kind of a tool and keep the equation.
pub ExecuteConfig-cases :
    (e : ExecuteConfig)
    → ((h : ExecuteHttpConfig) × (e ≡ execute_http h))
      ⊎ ((p : ExecutePluginConfig) × (e ≡ execute_plugin p))
ExecuteConfig-cases (execute_http h) = inl (h, refl)
ExecuteConfig-cases (execute_plugin p) = inr (p, refl)
