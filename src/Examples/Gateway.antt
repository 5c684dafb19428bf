-- ===== src/Examples/Gateway.antt =====
-- A server made with a few options.
use a2a_gateway_mcp.Prelude.{arith, ◌≡◌, ◌+◌, ◌*◌, false, none, some, List, [], ◌∷◌}
use a2a_gateway_mcp.Prelude.Int.{ℤ, pos, negsuc, is_le_zero, is_negative}
use a2a_gateway_mcp.Gateway.Config.{
  Packages, HistoryOptions, ServerOption, with_name, with_rate_limit, with_history, with_inbox_ttl,
}
use a2a_gateway_mcp.Gateway.Server.{Server, new_server, effective_poll_timeout}
use a2a_gateway_mcp.Gateway.Soundness.{Records, Limits, new_server-Records}
use a2a_gateway_mcp.Gateway.Timeouts.{poll-deadline}
use a2a_gateway_mcp.Tool.Poll.{deadline}
use a2a_gateway_mcp.Examples.Fixtures.{whole_rates, any_url}

-- A backend is known by its depth.
abbrev plain_packages : Packages
plain_packages = record {
  limiting = whole_rates;
  parse = any_url;
  HttpClient = Unit;
  default_http_client = tt;
  McpServerOptions = Unit;
  PingStrategy = Unit;
  default_ping_strategy = λ client. tt;
  Backend = ℤ;
  memory_backend = λ depth. depth;
  SelfHosted = Unit;
}

abbrev shallow : HistoryOptions plain_packages
shallow = record { depth = pos 5; max_entry_length = pos 0; backend = none }

abbrev options : List (ServerOption plain_packages)
options =
    with_name plain_packages "gateway"
    ∷ (with_rate_limit plain_packages 10 (pos 3)
        ∷ (with_history plain_packages shallow ∷ (with_inbox_ttl plain_packages (negsuc 0) ∷ [])))

abbrev server : Server plain_packages
server = new_server plain_packages options

poll-deadline_example :
    (deadline 100 (effective_poll_timeout plain_packages server (some (pos 5)))
      ≡ some (100 + 5 * 1000000000))
    × (deadline 100 (effective_poll_timeout plain_packages server (some (negsuc 2))) ≡ none)
    × (effective_poll_timeout plain_packages server none ≡ server.poll_timeout)
    × (effective_poll_timeout plain_packages server (some (pos 0)) ≡ server.poll_timeout)
poll-deadline_example = poll-deadline plain_packages server 100 5 2 (ground arith) (ground arith)

new_server-Records_example :
    Records plain_packages server.history
    × (is_le_zero server.inbox.ttl ≡ false)
    × (is_negative server.health_tracker.threshold ≡ false)
    × Limits plain_packages server.default_rate_limit
new_server-Records_example = new_server-Records plain_packages options
