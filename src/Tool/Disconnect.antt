-- ===== src/Tool/Disconnect.antt =====
-- internal/tool/tool_disconnect.go: disconnect_agent. The error of the history backend's Delete is
-- not looked at there, and the in-memory backend returns none.
pub mod Effects
use a2a_gateway_mcp.Prelude.{Bool, true, false, Option, none, some, List, [], ◌∷◌, String}
use a2a_gateway_mcp.Errors.{Error, Result, ok, err, errorf, text, Formatted}
use a2a_gateway_mcp.Validate.{validate_alias}
use a2a_gateway_mcp.Health.Tracker
use a2a_gateway_mcp.History.Memory
use a2a_gateway_mcp.History.Memory.{MemoryBackend}
use a2a_gateway_mcp.Registry.Agents
use a2a_gateway_mcp.Registry.Agents.{RegisteredAgent, AgentRegistry}
use a2a_gateway_mcp.Registry.Contexts
use a2a_gateway_mcp.Registry.Clients
use a2a_gateway_mcp.Registry.Clients.{A2aClients}
use a2a_gateway_mcp.Registry.Limits
use a2a_gateway_mcp.Registry.Limits.{RateLimiting}
use a2a_gateway_mcp.Tool.Session.{Session}

abbrev forgotten : String → Option MemoryBackend → Option MemoryBackend
forgotten alias none = none
forgotten alias (some backend) = some (Memory.delete alias backend)

module _ (R : RateLimiting) (S : A2aClients) where
  -- The calls after the agent has been removed, in their order.
  unfoldable pub clean_up : String → RegisteredAgent → Session R S → Session R S
  clean_up alias entry s = record s {
    clients = Clients.evict S entry.url s.clients;
    limits = Limits.remove R alias s.limits;
    health = Tracker.reset alias s.health;
    contexts = Contexts.delete alias s.contexts;
    history = forgotten alias s.history;
  }

  abbrev removed :
      String → Option RegisteredAgent × AgentRegistry → Session R S → Result Formatted × Session R S
  removed alias (none, agents) s = (
    err (errorf "agent %q not found in registry" (text alias ∷ [])),
    record s { agents = agents },
  )
  removed alias (some entry, agents) s = (
    ok (record { format = "Disconnected agent %q"; args = text alias ∷ [] }),
    clean_up alias entry (record s { agents = agents }),
  )

  abbrev checked : Option Error → String → Session R S → Result Formatted × Session R S
  checked (some e) alias s = (err e, s)
  checked none alias s = removed alias (Agents.disconnect alias s.agents) s

  unfoldable pub handle : String → Session R S → Result Formatted × Session R S
  unfolding clean_up
  handle alias s = checked (validate_alias alias) alias s
