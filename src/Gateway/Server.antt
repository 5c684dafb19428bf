-- ===== src/Gateway/Server.antt =====
-- gateway/server.go: NewServer after its options, and the timeouts of a request. The registration of
-- the tools with the MCP server is glue.
use a2a_gateway_mcp.Prelude.{
  not, ◌&&◌, ℕ, ◌-◌, ◌*◌, Bool, true, false, Option, none, some, List, String, if◌then◌else◌, ltb,
}
use Prim.Native.Nat.{◌%◌}
use a2a_gateway_mcp.Prelude.Int.{ℤ, pos, negsuc, is_le_zero, is_zero}
use a2a_gateway_mcp.Errors.{Error}
use a2a_gateway_mcp.Health.Tracker.{HealthTracker, new_health_tracker}
use a2a_gateway_mcp.Registry.Agents.{AgentRegistry, new_agent_registry}
use a2a_gateway_mcp.Registry.CallerCards.{CallerCardStore, new_caller_card_store}
use a2a_gateway_mcp.Registry.Contexts.{ContextStore, new_context_store}
use a2a_gateway_mcp.Registry.Inbox.{MemoryInbox, new_memory_inbox}
use a2a_gateway_mcp.Registry.Limits.{
  RateLimitConfig, RateLimiterRegistry, new_rate_limiter_registry,
}
use a2a_gateway_mcp.Gateway.Config.{
  Packages, ServerConfig, ServerOption, initial, configured, default_inbox_ttl,
}

-- time.Duration(seconds) * time.Second, in a signed 64-bit integer
abbrev pub signed_64 : ℕ → ℤ
signed_64 n = if ltb n 9223372036854775808 then pos n else negsuc (18446744073709551615 - n)

unfoldable pub seconds : ℕ → ℤ
seconds n = signed_64 ((n * 1000000000) % 18446744073709551616)

-- max(v, 0)
abbrev pub at_least_zero : ℤ → ℤ
at_least_zero (pos n) = pos n
at_least_zero (negsuc n) = pos 0

module _ (P : Packages) where
  open P use {
    limiting, HttpClient, PingStrategy, default_ping_strategy, Backend, memory_backend, SelfHosted,
  }

  pub record History : Type 0 where
    pub enabled : Bool
    pub depth : ℤ
    pub max_entry_length : ℤ
    pub backend : Option Backend

  -- Without the MCP server, and without the client resolver that is made from the registry and the
  -- HTTP client.
  pub record Server : Type 0 where
    pub registry : AgentRegistry
    pub context_store : ContextStore
    pub http_client : HttpClient
    pub poll_timeout : ℤ
    pub stream_timeout : ℤ
    pub rate_limiters : RateLimiterRegistry limiting
    pub default_rate_limit : Option (RateLimitConfig limiting)
    pub caller_card_store : CallerCardStore
    pub history : History
    pub health_tracker : HealthTracker
    pub ping_strategy : PingStrategy
    pub inbox : MemoryInbox
    pub default_directory_url : String
    pub default_directory_url_err : Option Error
    pub directory : Option SelfHosted

  abbrev pub or_default {ℓ} : {A : Type ℓ} → Option A → A → A
  or_default none d = d
  or_default (some a) d = a

  abbrev pub global_rate_limit : ServerConfig P → Option (RateLimitConfig limiting)
  global_rate_limit cfg =
      if limiting.is_positive cfg.rate_limit_rps && not (is_le_zero cfg.rate_limit_burst)
      then some (record { requests_per_second = cfg.rate_limit_rps; burst = cfg.rate_limit_burst })
      else none

  unfoldable pub configure_history : ServerConfig P → History
  configure_history cfg =
      if cfg.history_configured
      then (if is_zero cfg.history_depth
          then record { enabled = false; depth = pos 0; max_entry_length = pos 0; backend = none }
          else record {
            enabled = true;
            depth = cfg.history_depth;
            max_entry_length =
                if is_le_zero cfg.history_max_entry then pos 1000 else cfg.history_max_entry;
            backend = some (or_default cfg.history_backend (memory_backend cfg.history_depth));
          })
      else record {
        enabled = true;
        depth = pos 50;
        max_entry_length = pos 1000;
        backend = some (memory_backend (pos 50));
      }

  abbrev pub threshold_for : ServerConfig P → ℤ
  threshold_for cfg =
      if cfg.health_check_configured then at_least_zero cfg.health_failure_threshold else pos 3

  abbrev pub ttl_for : ServerConfig P → ℤ
  ttl_for cfg = if is_le_zero cfg.inbox_ttl then default_inbox_ttl else cfg.inbox_ttl

  abbrev pub server_of : ServerConfig P → Server
  server_of cfg = record {
    registry = new_agent_registry;
    context_store = new_context_store;
    http_client = cfg.http_client;
    poll_timeout = cfg.poll_timeout;
    stream_timeout = cfg.stream_timeout;
    rate_limiters = new_rate_limiter_registry limiting;
    default_rate_limit = global_rate_limit cfg;
    caller_card_store = new_caller_card_store;
    history = configure_history cfg;
    health_tracker = new_health_tracker (threshold_for cfg);
    ping_strategy = or_default cfg.health_ping_strategy (default_ping_strategy cfg.http_client);
    inbox = new_memory_inbox (ttl_for cfg);
    default_directory_url = cfg.default_directory_url;
    default_directory_url_err = cfg.default_directory_url_err;
    directory = cfg.directory;
  }

  unfoldable pub new_server : List (ServerOption P) → Server
  unfolding configured configure_history
  new_server opts = server_of (configured P opts (initial P))

  -- The timeout of a request, over the default of the server.
  abbrev pub timeout_or : ℤ → Option ℤ → ℤ
  timeout_or default none = default
  timeout_or default (some (negsuc n)) = pos 0
  timeout_or default (some (pos n)) = if ltb 0 n then seconds n else default

  unfoldable pub effective_poll_timeout : Server → Option ℤ → ℤ
  unfolding seconds
  effective_poll_timeout s request_seconds = timeout_or s.poll_timeout request_seconds

  unfoldable pub effective_stream_timeout : Server → Option ℤ → ℤ
  unfolding seconds
  effective_stream_timeout s request_seconds = timeout_or s.stream_timeout request_seconds
