-- ===== src/Config/Samples.antt =====
-- src/config/types/: a configuration that sets nothing, for the tests.
use rust_mcp_core.Common.{[], false, none}
use rust_mcp_core.Config.{McpConfig, off}
use rust_mcp_core.Policy.{optional}

abbrev pub bare_config : McpConfig
bare_config = record {
  top_level_combinators = off;
  streamable_http = record { session_mode = optional; hardening = none };
  completion = none;
  tools = none;
  outbound_http = none;
  upstreams = [];
  plugins = [];
  tasks = none;
  page_size = none;
  response_limits = none;
  expose_internal_error_details = false;
  log_payload_max_bytes = 4096;
}
