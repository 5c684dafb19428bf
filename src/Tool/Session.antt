-- ===== src/Tool/Session.antt =====
-- internal/tool/tool.go and gateway/tools.go: what the handlers of one server share, and the
-- resolution of an agent identifier. The state is the content of the stores; the mutex of each
-- store makes a call on it one step, and a handler is the sequence of its calls.
use a2a_gateway_mcp.Prelude.{Bool, true, false, Option, none, some, [], String, if◌then◌else◌}
use a2a_gateway_mcp.GoMap
use a2a_gateway_mcp.GoMap.{GoMap}
use a2a_gateway_mcp.Errors.{Error, Result, ok, err, errorf}
use a2a_gateway_mcp.Validate.{ParsedUrl, validate_url}
use a2a_gateway_mcp.Health.Tracker.{HealthTracker}
use a2a_gateway_mcp.History.Memory.{MemoryBackend}
use a2a_gateway_mcp.Registry.Agents
use a2a_gateway_mcp.Registry.Agents.{AgentRegistry, RegisteredAgent}
use a2a_gateway_mcp.Registry.Contexts.{ContextStore}
use a2a_gateway_mcp.Registry.CallerCards.{CallerCardStore}
use a2a_gateway_mcp.Registry.Limits.{RateLimiting, RateLimiterRegistry}
use a2a_gateway_mcp.Registry.Clients.{A2aClients, ClientResolver}
use a2a_gateway_mcp.Registry.Inbox.{MemoryInbox}
use a2a_gateway_mcp.Registry.Resolved.{ResolveResult}

pub record Session (R : RateLimiting) (S : A2aClients) : Type 0 where
  pub agents : AgentRegistry
  pub clients : ClientResolver S
  pub contexts : ContextStore
  pub caller_cards : CallerCardStore
  pub limits : RateLimiterRegistry R
  pub health : HealthTracker
  -- nil if history is disabled
  pub history : Option MemoryBackend
  pub inbox : MemoryInbox

abbrev by_alias : String → RegisteredAgent → ResolveResult
by_alias identifier entry = record {
  url = entry.url;
  headers = entry.headers;
  is_alias = true;
  alias = identifier;
}

abbrev by_url : String → ResolveResult
by_url identifier = record { url = identifier; headers = GoMap.empty; is_alias = false; alias = "" }

abbrev when_valid : String → Option Error → Result ResolveResult
when_valid identifier none = ok (by_url identifier)
when_valid identifier (some e) =
    err (errorf "agent alias not registered and identifier is not a valid URL" [])

unfoldable pub resolve_agent : (String → ParsedUrl) → AgentRegistry → String → Result ResolveResult
resolve_agent parse registry identifier = elim (Agents.lookup identifier registry) [
  | some entry ↦ ok (by_alias identifier entry)
  | none ↦ when_valid identifier (validate_url parse identifier)
]

abbrev streams : Option RegisteredAgent → Bool
streams none = false
streams (some entry) = elim entry.card [ none ↦ false | some card ↦ card.streaming ]

unfoldable pub supports_streaming : AgentRegistry → ResolveResult → Bool
supports_streaming registry resolved =
    if resolved.is_alias then streams (Agents.lookup resolved.alias registry) else false
