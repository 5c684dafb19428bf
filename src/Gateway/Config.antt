-- ===== src/Gateway/Config.antt =====
-- gateway/server.go: the configuration of the server, and the options that change it. What the
-- packages net/http and mcp make, the strategies and the backends of a caller, and the self-hosted
-- directory are values of types that the model does not look into.
use a2a_gateway_mcp.Prelude.{
  Bool, true, false, Option, none, List, [], ◌∷◌, String, ◌==◌, if◌then◌else◌,
}
use a2a_gateway_mcp.Prelude.Int.{ℤ, pos}
use a2a_gateway_mcp.Errors.{Error}
use a2a_gateway_mcp.Registry.Limits.{RateLimiting}
use a2a_gateway_mcp.Validate.{ParsedUrl, validate_url}

pub record Packages : Type 1 where
  pub limiting : RateLimiting
  pub parse : String → ParsedUrl
  pub HttpClient : Type 0
  -- &http.Client{Timeout: defaultHTTPTimeout}
  pub default_http_client : HttpClient
  pub McpServerOptions : Type 0
  pub PingStrategy : Type 0
  -- NewDefaultPingStrategy
  pub default_ping_strategy : HttpClient → PingStrategy
  pub Backend : Type 0
  -- NewMemoryBackend
  pub memory_backend : ℤ → Backend
  pub SelfHosted : Type 0

-- Durations, in nanoseconds.
abbrev pub task_poll_timeout : ℤ
task_poll_timeout = pos 60000000000

abbrev pub default_stream_timeout : ℤ
default_stream_timeout = pos 60000000000

abbrev pub default_inbox_ttl : ℤ
default_inbox_ttl = pos 1800000000000

module _ (P : Packages) where
  open P use {
    limiting, parse, HttpClient, default_http_client, McpServerOptions, PingStrategy, Backend,
    SelfHosted,
  }

  pub record HistoryOptions : Type 0 where
    pub depth : ℤ
    pub max_entry_length : ℤ
    pub backend : Option Backend

  pub record HealthCheckOptions : Type 0 where
    pub failure_threshold : ℤ
    pub ping_strategy : Option PingStrategy

  pub record ServerConfig : Type 0 where
    pub http_client : HttpClient
    pub name : String
    pub version : String
    pub poll_timeout : ℤ
    pub stream_timeout : ℤ
    pub rate_limit_rps : limiting.Float
    pub rate_limit_burst : ℤ
    pub health_check_configured : Bool
    pub health_failure_threshold : ℤ
    pub health_ping_strategy : Option PingStrategy
    pub history_configured : Bool
    pub history_depth : ℤ
    pub history_max_entry : ℤ
    pub history_backend : Option Backend
    pub inbox_ttl : ℤ
    pub default_directory_url : String
    pub default_directory_url_err : Option Error
    pub directory : Option SelfHosted
    pub mcp_server_options : Option McpServerOptions

  -- An option changes the configuration.
  abbrev pub ServerOption : Type 0
  ServerOption = ServerConfig → ServerConfig

  unfoldable pub with_http_client : HttpClient → ServerOption
  with_http_client c cfg = record cfg { http_client = c }

  unfoldable pub with_name : String → ServerOption
  with_name name cfg = record cfg { name = name }

  unfoldable pub with_version : String → ServerOption
  with_version version cfg = record cfg { version = version }

  unfoldable pub with_poll_timeout : ℤ → ServerOption
  with_poll_timeout d cfg = record cfg { poll_timeout = d }

  unfoldable pub with_stream_timeout : ℤ → ServerOption
  with_stream_timeout d cfg = record cfg { stream_timeout = d }

  unfoldable pub with_rate_limit : limiting.Float → ℤ → ServerOption
  with_rate_limit requests_per_second burst cfg = record cfg {
    rate_limit_rps = requests_per_second;
    rate_limit_burst = burst;
  }

  unfoldable pub with_history : HistoryOptions → ServerOption
  with_history opts cfg = record cfg {
    history_configured = true;
    history_depth = opts.depth;
    history_max_entry = opts.max_entry_length;
    history_backend = opts.backend;
  }

  unfoldable pub with_health_check : HealthCheckOptions → ServerOption
  with_health_check opts cfg = record cfg {
    health_check_configured = true;
    health_failure_threshold = opts.failure_threshold;
    health_ping_strategy = opts.ping_strategy;
  }

  unfoldable pub with_inbox_ttl : ℤ → ServerOption
  with_inbox_ttl d cfg = record cfg { inbox_ttl = d }

  unfoldable pub with_default_directory_url : String → ServerOption
  with_default_directory_url raw_url cfg = record cfg {
    default_directory_url = raw_url;
    default_directory_url_err = if raw_url == "" then none else validate_url parse raw_url;
  }

  unfoldable pub with_directory : Option SelfHosted → ServerOption
  with_directory d cfg = record cfg { directory = d }

  unfoldable pub with_mcp_server_options : Option McpServerOptions → ServerOption
  with_mcp_server_options opts cfg = record cfg { mcp_server_options = opts }

  -- Before the options; what the code does not name has its zero value.
  abbrev pub initial : ServerConfig
  initial = record {
    http_client = default_http_client;
    name = "a2a-gateway-mcp";
    version = "0.1.0";
    poll_timeout = task_poll_timeout;
    stream_timeout = default_stream_timeout;
    rate_limit_rps = limiting.float_zero;
    rate_limit_burst = pos 0;
    health_check_configured = false;
    health_failure_threshold = pos 0;
    health_ping_strategy = none;
    history_configured = false;
    history_depth = pos 0;
    history_max_entry = pos 0;
    history_backend = none;
    inbox_ttl = pos 0;
    default_directory_url = "";
    default_directory_url_err = none;
    directory = none;
    mcp_server_options = none;
  }

  -- for _, opt := range opts { opt(cfg) }
  unfoldable pub configured : List ServerOption → ServerConfig → ServerConfig
  configured [] cfg = cfg
  configured (opt ∷ opts) cfg = configured opts (opt cfg)
