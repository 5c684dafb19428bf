-- ===== src/Examples/Cards.antt =====
-- A caller card that is created, and a message that is sent after it.
use a2a_gateway_mcp.Prelude.{◌≡◌, refl, none, some, [], String}
use a2a_gateway_mcp.GoMap
use a2a_gateway_mcp.Errors.{ok}
use a2a_gateway_mcp.Registry.Agents
use a2a_gateway_mcp.Registry.CallerCards
use a2a_gateway_mcp.Registry.CallerCards.{caller_card, default_caller_card_key, value_at}
use a2a_gateway_mcp.Registry.CallerCards.{inject_caller_card, new_caller_card_store}
use a2a_gateway_mcp.Registry.Clients
use a2a_gateway_mcp.Registry.Contexts
use a2a_gateway_mcp.Registry.Limits
use a2a_gateway_mcp.Tool.Input.{build_message_parts}
use a2a_gateway_mcp.Tool.Overview.{CreateCallerCardInput, card_of, create_caller_card}
use a2a_gateway_mcp.Tool.Send.{SendRequest, build_send_request}
use a2a_gateway_mcp.Tool.Send.Carried.{after_card, create-build}
use a2a_gateway_mcp.Tool.Session.{resolve_agent}
use a2a_gateway_mcp.Examples.Agents.{two_agents, two_stores, hello, hello_request, to_a}

abbrev me : CreateCallerCardInput
me = record {
  name = "me";
  description = "";
  url = "";
  skills = [];
  capabilities = none;
  metadata_key = "";
}

abbrev as_is : String → String
as_is s = s

abbrev to_a_with_card : SendRequest two_agents
to_a_with_card = record to_a {
  request = record hello_request {
    metadata = some (GoMap.insert default_caller_card_key (caller_card (card_of me)) GoMap.empty);
  };
}

built_with_card :
    (build_send_request two_agents 5 hello (after_card two_agents as_is me two_stores)).0
    ≡ ok to_a_with_card
unfolding build_send_request build_message_parts resolve_agent Agents.lookup Agents.connect
    Agents.new_agent_registry GoMap.lookup GoMap.insert GoMap.empty Limits.check_rate_limit
    Limits.new_rate_limiter_registry Clients.resolve Contexts.get Contexts.new_context_store
    inject_caller_card new_caller_card_store create_caller_card CallerCards.set
built_with_card = refl

create-build_example :
    value_at default_caller_card_key to_a_with_card.request.metadata
    ≡ some (caller_card (card_of me))
create-build_example =
    create-build two_agents as_is me 5 hello default_caller_card_key two_stores to_a_with_card
      (λ e. cc e) built_with_card
