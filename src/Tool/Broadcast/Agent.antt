-- ===== src/Tool/Broadcast/Agent.antt =====
-- internal/tool/tool_broadcast.go: the agents of a broadcast. The goroutines run one agent after the
-- other, in an order that is an argument; what they share is the stores, whose calls are one step
-- each, and the map of the outcomes, which a mutex protects.
use a2a_gateway_mcp.Prelude.{
  ℕ, Bool, true, not, ◌&&◌, Option, none, some, List, [], ◌∷◌, String, if◌then◌else◌,
}
use a2a_gateway_mcp.GoMap
use a2a_gateway_mcp.GoMap.{GoMap}
use a2a_gateway_mcp.Errors.{Result, ok, err, text, error_text}
use a2a_gateway_mcp.A2a.{Part}
use a2a_gateway_mcp.Health.Tracker
use a2a_gateway_mcp.Registry.Agents
use a2a_gateway_mcp.Registry.Agents.{RegisteredAgent}
use a2a_gateway_mcp.Registry.CallerCards.{inject_caller_card}
use a2a_gateway_mcp.Registry.Clients.{ClientResolver, resolve}
use a2a_gateway_mcp.Registry.Limits
use a2a_gateway_mcp.Registry.Limits.{RateLimiterRegistry}
use a2a_gateway_mcp.Registry.Resolved.{ResolveResult}
use a2a_gateway_mcp.Tool.Broadcast.{
  BroadcastMessageInput, AgentOutcome, refused, with_stores, told, record_broadcast_history,
}
use a2a_gateway_mcp.Tool.Broadcast.Transports.{broadcast_via_streaming, broadcast_direct}
use a2a_gateway_mcp.Tool.Input.{build_message_parts}
use a2a_gateway_mcp.Tool.Send.{Environment, SendMessageRequest, Live, given_metadata}
use a2a_gateway_mcp.Tool.Session.{supports_streaming}
use a2a_gateway_mcp.Tool.Stream.Handling.{SendMessageOutput}

module _ (E : Environment) where
  open E use {limiting, sdk, decode_string, sprintf, state_name}

  -- A refusal, with its entry in the history.
  abbrev pub turned_down :
      String → BroadcastMessageInput → String → String → Live E → AgentOutcome × Live E
  turned_down alias input status e s = told E alias input (refused status e, s)

  abbrev pub entry_target : String → RegisteredAgent → ResolveResult
  entry_target alias entry = record {
    url = entry.url;
    headers = entry.headers;
    is_alias = true;
    alias = alias;
  }

  abbrev pub message_request :
      BroadcastMessageInput → List (Option Part) → Live E → SendMessageRequest
  message_request input parts s = record {
    message = record { parts = parts; context_id = ""; task_id = "" };
    metadata = inject_caller_card s.stores.caller_cards (given_metadata input.metadata);
  }

  abbrev pub transmitted :
      ℕ
      → String
      → BroadcastMessageInput
      → ResolveResult
      → sdk.Client
      → Result (List (Option Part))
      → Live E
      → AgentOutcome × Live E
  transmitted timeout alias input resolved client (err e) s =
      turned_down alias input "error" (error_text sprintf e) s
  transmitted timeout alias input resolved client (ok parts) s =
      let request = message_request input parts s in
      if supports_streaming s.stores.agents resolved
      then broadcast_via_streaming E timeout client request alias input resolved s
      else broadcast_direct E client request alias input resolved s

  abbrev pub with_client :
      ℕ
      → String
      → BroadcastMessageInput
      → ResolveResult
      → Result sdk.Client × ClientResolver sdk
      → Live E
      → AgentOutcome × Live E
  with_client timeout alias input resolved (err e, clients) s =
      turned_down alias input "error"
        (sprintf "failed to resolve client: %v" (text (error_text sprintf e) ∷ []))
        (with_stores E (λ st. record st { clients = clients }) s)
  with_client timeout alias input resolved (ok client, clients) s =
      transmitted timeout alias input resolved client
        (build_message_parts decode_string input.message input.parts)
        (with_stores E (λ st. record st { clients = clients }) s)

  abbrev pub limited :
      ℕ
      → String
      → BroadcastMessageInput
      → RegisteredAgent
      → Bool × RateLimiterRegistry limiting
      → Live E
      → AgentOutcome × Live E
  limited timeout alias input entry (allowed, limits) s =
      let s' = with_stores E (λ st. record st { limits = limits }) s in
      let resolved = entry_target alias entry in
      if not allowed
      then turned_down alias input "error"
          (sprintf "rate limited: agent %q has exceeded its rate limit" (text alias ∷ [])) s'
      else with_client timeout alias input resolved
          (resolve sdk s.stores.agents resolved s.stores.clients) s'

  abbrev pub to_registered :
      ℕ
      → ℕ
      → String
      → BroadcastMessageInput
      → Option RegisteredAgent
      → Live E
      → AgentOutcome × Live E
  to_registered now timeout alias input none s =
      turned_down alias input "error" (sprintf "alias %q is not registered" (text alias ∷ [])) s
  to_registered now timeout alias input (some entry) s =
      if Tracker.is_enabled s.stores.health && not (Tracker.is_healthy alias s.stores.health)
      then turned_down alias input "skipped" "agent is unhealthy" s
      else limited timeout alias input entry (Limits.allow limiting now alias s.stores.limits) s

  -- The limiter is asked at the time `now`, and the timeout is in seconds.
  unfoldable pub broadcast_to_agent :
      ℕ → ℕ → String → BroadcastMessageInput → Live E → AgentOutcome × Live E
  unfolding broadcast_via_streaming broadcast_direct record_broadcast_history supports_streaming
  broadcast_to_agent now timeout alias input s =
      to_registered now timeout alias input (Agents.lookup alias s.stores.agents) s

  -- The goroutines in the order in which they run, over the outcomes so far.
  unfoldable pub fan_out :
      ℕ
      → ℕ
      → BroadcastMessageInput
      → List String
      → GoMap AgentOutcome
      → Live E
      → GoMap AgentOutcome × Live E
  unfolding broadcast_to_agent
  fan_out now timeout input [] outcomes s = (outcomes, s)
  fan_out now timeout input (alias ∷ order) outcomes s =
      let (outcome, s') = broadcast_to_agent now timeout alias input s in
      fan_out now timeout input order (GoMap.insert alias outcome outcomes) s'

  abbrev pub response_of : AgentOutcome → Option SendMessageOutput
  response_of outcome = outcome.response

  unfoldable pub build_response : GoMap AgentOutcome → GoMap SendMessageOutput
  build_response outcomes = GoMap.filter_map response_of outcomes
