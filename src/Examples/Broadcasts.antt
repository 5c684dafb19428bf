-- ===== src/Examples/Broadcasts.antt =====
-- A broadcast to an agent, and to one that is unhealthy.
use a2a_gateway_mcp.Prelude.{List, String, ◌≡◌, refl, true, false, none, some, [], ◌∷◌, is_some}
use a2a_gateway_mcp.Prelude.Int.{pos}
use a2a_gateway_mcp.GoMap
use a2a_gateway_mcp.GoMap.{GoMap, then_value}
use a2a_gateway_mcp.Examples.Agents.{two_agents, two_stores, at_start}
use a2a_gateway_mcp.Health.Tracker
use a2a_gateway_mcp.Registry.Agents
use a2a_gateway_mcp.Registry.Agents.{connected, new_agent_registry}
use a2a_gateway_mcp.Registry.Inbox.{deposit, new_memory_inbox}
use a2a_gateway_mcp.Tool.Broadcast.{BroadcastMessageInput, refused}
use a2a_gateway_mcp.Tool.Broadcast.Agent.{broadcast_to_agent, fan_out, build_response, response_of}
use a2a_gateway_mcp.Tool.Broadcast.Handle.{
  background_broadcast_to_agent, blank, broadcast_async, Turn,
}
use a2a_gateway_mcp.Tool.Broadcast.Responses.{last_outcome, is_reported, occurs, fan_out-response}
use a2a_gateway_mcp.Tool.Stream.Handling.{SendMessageOutput}
use a2a_gateway_mcp.Tool.Broadcast.Unhealthy.{unhealthy-skipped}
use a2a_gateway_mcp.Tool.Send.{Live}

abbrev to_both : BroadcastMessageInput
to_both = record {
  aliases = "a" ∷ ("b" ∷ []);
  message = "hello";
  parts = [];
  timeout_seconds = none;
  metadata = none;
  async = none;
}

-- One failure is enough to make the agent unhealthy.
abbrev after_failure : Live two_agents
after_failure = record at_start {
  stores = record two_stores { health = Tracker.record_failure "a" two_stores.health };
}

registered :
    Agents.lookup "a" after_failure.stores.agents ≡ some (connected "a" "https://a" GoMap.empty "")
unfolding Agents.lookup Agents.connect new_agent_registry GoMap.lookup GoMap.insert GoMap.empty
registered = refl

enabled : Tracker.is_enabled after_failure.stores.health ≡ true
unfolding Tracker.is_enabled Tracker.record_failure Tracker.reset Tracker.new_health_tracker
    GoMap.lookup GoMap.insert GoMap.empty
enabled = refl

ill : Tracker.is_healthy "a" after_failure.stores.health ≡ false
unfolding Tracker.is_healthy Tracker.record_failure Tracker.reset Tracker.new_health_tracker
    GoMap.lookup GoMap.insert GoMap.empty
ill = refl

unhealthy-skipped_example :
    ((broadcast_to_agent two_agents 5 30 "a" to_both after_failure).0
      ≡ refused "skipped" "agent is unhealthy")
    × ((broadcast_to_agent two_agents 5 30 "a" to_both after_failure).1.world ≡ 0)
    × ((broadcast_to_agent two_agents 5 30 "a" to_both after_failure).1.stores
        ≡ after_failure.stores)
    × ((background_broadcast_to_agent two_agents 5 9 30 "a" to_both after_failure).stores.inbox
        ≡ deposit 9 (blank two_agents "a") (new_memory_inbox (pos 0)))
unhealthy-skipped_example =
    unhealthy-skipped two_agents 5 9 30 "a" to_both (connected "a" "https://a" GoMap.empty "")
      after_failure registered enabled ill

fan_out-response_example :
    (is_some (last_outcome two_agents 5 30 to_both "b" ("b" ∷ ("a" ∷ [])) none at_start)
      ≡ occurs "b" ("b" ∷ ("a" ∷ [])))
    × (GoMap.lookup "b" (
          build_response two_agents
            (fan_out two_agents 5 30 to_both ("b" ∷ ("a" ∷ [])) GoMap.empty at_start).0)
        ≡ then_value
            (response_of two_agents)
            (last_outcome two_agents 5 30 to_both "b" ("b" ∷ ("a" ∷ [])) none at_start))
    × (is_some (
          GoMap.lookup "b" (
            build_response two_agents
              (fan_out two_agents 5 30 to_both ("b" ∷ ("a" ∷ [])) GoMap.empty at_start).0))
        ≡ is_reported two_agents
            (last_outcome two_agents 5 30 to_both "b" ("b" ∷ ("a" ∷ [])) none at_start))
fan_out-response_example = fan_out-response two_agents 5 30 to_both ("b" ∷ ("a" ∷ [])) "b" at_start

-- The goroutine of "a" runs before the summary goes on to "b", which is not registered.
abbrev early : List (Turn two_agents)
early = (true ∷ []) ∷ []

abbrev dispatched : GoMap SendMessageOutput × (List String × Live two_agents)
dispatched =
    broadcast_async two_agents 5 9 30 to_both early ("a" ∷ ("b" ∷ [])) [] GoMap.empty at_start
