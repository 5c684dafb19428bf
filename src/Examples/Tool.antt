-- ===== src/Examples/Tool.antt =====
-- A session that connects an agent and disconnects it again.
use a2a_gateway_mcp.Prelude.Int.{ℤ, pos, is_zero}
use a2a_gateway_mcp.Prelude.{ℕ, ◌≡◌, refl, Option, none, some, [], ◌∷◌, if◌then◌else◌}
use a2a_gateway_mcp.GoMap
use a2a_gateway_mcp.GoMap.{GoMap}
use a2a_gateway_mcp.Errors.{ok, text}
use a2a_gateway_mcp.Validate.{
  is_valid_alias_char, validate_headers, validate_url, alias_chars, validate_alias,
}
use a2a_gateway_mcp.Health.Tracker
use a2a_gateway_mcp.History.Memory.{new_memory_backend}
use a2a_gateway_mcp.Registry.Agents
use a2a_gateway_mcp.Registry.Agents.{RegisteredAgent, connected, new_agent_registry}
use a2a_gateway_mcp.Registry.CallerCards.{new_caller_card_store}
use a2a_gateway_mcp.Registry.Clients.{new_client_resolver}
use a2a_gateway_mcp.Registry.Contexts
use a2a_gateway_mcp.Registry.Inbox.{new_memory_inbox}
use a2a_gateway_mcp.Registry.Limits
use a2a_gateway_mcp.Registry.Limits.{new_rate_limiter_registry}
use a2a_gateway_mcp.Tool.Session.{Session}
use a2a_gateway_mcp.Tool.Connect
use a2a_gateway_mcp.Tool.Connect.{
  ConnectAgentInput, ConnectAgentTool, validate_input, new_connect_agent_tool,
}
use a2a_gateway_mcp.Tool.Connect.Effects.{handle-connect, registered, context_after}
use a2a_gateway_mcp.Tool.Disconnect
use a2a_gateway_mcp.Tool.Disconnect.Effects.{handle-disconnect, history_of}
use a2a_gateway_mcp.Examples.Fixtures.{whole_rates, plain_clients, any_url, card_named}

abbrev fresh : Session whole_rates plain_clients
fresh = record {
  agents = new_agent_registry;
  clients = new_client_resolver plain_clients;
  contexts = Contexts.new_context_store;
  caller_cards = new_caller_card_store;
  limits = new_rate_limiter_registry whole_rates;
  health = Tracker.new_health_tracker (pos 3);
  history = some (new_memory_backend (pos 2));
  inbox = new_memory_inbox (pos 0);
}

abbrev with_agent : Session whole_rates plain_clients
with_agent = record fresh {
  agents = (Agents.connect "a" "https://a" GoMap.empty "" new_agent_registry).1;
}

abbrev input : Option ℕ → Option ℤ → ConnectAgentInput whole_rates
input rps burst = record {
  alias = "a";
  agent_url = "https://a";
  headers = GoMap.empty;
  ping_endpoint = none;
  rate_limit_rps = rps;
  rate_limit_burst = burst;
}

abbrev tool : ConnectAgentTool whole_rates
tool = new_connect_agent_tool whole_rates (record { requests_per_second = 5; burst = pos 10 })

alias_valid : validate_alias "a" ≡ none
unfolding validate_alias alias_chars is_valid_alias_char
alias_valid = refl

plain_valid : validate_input whole_rates any_url (input none none) ≡ none
unfolding validate_input validate_alias validate_url validate_headers alias_chars
    is_valid_alias_char GoMap.size GoMap.empty
plain_valid = refl

-- The session after the connection.
abbrev connected_session : Session whole_rates plain_clients
connected_session =
    (Connect.handle whole_rates plain_clients any_url tool (some (card_named "a")) (input none none)
      fresh).1

handle-connect_example :
    (Agents.lookup "a" connected_session.agents
      ≡ some (registered whole_rates plain_clients (input none none) (some (card_named "a"))))
    × (Contexts.get "a" connected_session.contexts
        ≡ context_after whole_rates plain_clients
            (input none none)
            (Agents.lookup "a" fresh.agents)
            (Contexts.get "a" fresh.contexts))
    × (Tracker.get "a" connected_session.health ≡ (
        if is_zero fresh.health.threshold
        then Tracker.get "a" fresh.health
        else Tracker.unknown_state))
handle-connect_example =
    handle-connect whole_rates plain_clients any_url tool (some (card_named "a")) (input none none)
      fresh "a" plain_valid

has_agent : Agents.lookup "a" with_agent.agents ≡ some (connected "a" "https://a" GoMap.empty "")
unfolding Agents.lookup Agents.connect
has_agent =
    GoMap.lookup-insert "a" "a" (connected "a" "https://a" GoMap.empty "")
      new_agent_registry.entries

abbrev after : Session whole_rates plain_clients
after = (Disconnect.handle whole_rates plain_clients "a" with_agent).1

handle-disconnect_example :
    ((Disconnect.handle whole_rates plain_clients "a" with_agent).0
      ≡ ok (record { format = "Disconnected agent %q"; args = text "a" ∷ [] }))
    × (Agents.lookup "a" after.agents ≡ none)
    × (Contexts.get "a" after.contexts ≡ "")
    × (Limits.get whole_rates "a" after.limits ≡ none)
    × (history_of "a" after.history ≡ [])
    × (Tracker.get "a" after.health ≡ (
        if is_zero with_agent.health.threshold
        then Tracker.get "a" with_agent.health
        else Tracker.unknown_state))
    × (GoMap.lookup "a" after.clients.clients ≡ GoMap.lookup "a" with_agent.clients.clients)
handle-disconnect_example =
    handle-disconnect whole_rates plain_clients "a" "a" (connected "a" "https://a" GoMap.empty "")
      with_agent alias_valid has_agent

no_agent : Agents.lookup "a" fresh.agents ≡ none
unfolding Agents.lookup new_agent_registry
no_agent = GoMap.lookup-empty "a"
