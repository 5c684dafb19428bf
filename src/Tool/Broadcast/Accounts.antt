-- ===== src/Tool/Broadcast/Accounts.antt =====
-- What every agent of a broadcast leaves behind, from the lookup of its alias on.
use a2a_gateway_mcp.Prelude.{
  ℕ, ◌≡◌, refl, Bool, true, false, not, ◌&&◌, Option, none, some, List, [], ◌∷◌, String,
  if◌then◌else◌,
}
use a2a_gateway_mcp.Errors.{Result, ok, err, text, error_text}
use a2a_gateway_mcp.A2a.{Part}
use a2a_gateway_mcp.Registry.Agents
use a2a_gateway_mcp.Health.Tracker
use a2a_gateway_mcp.Registry.Agents.{RegisteredAgent}
use a2a_gateway_mcp.Registry.Clients.{ClientResolver, resolve}
use a2a_gateway_mcp.Registry.Limits
use a2a_gateway_mcp.Registry.Limits.{RateLimiterRegistry}
use a2a_gateway_mcp.Registry.Resolved.{ResolveResult}
use a2a_gateway_mcp.Tool.Broadcast.{
  supports_streaming, build_message_parts, with_stores, BroadcastMessageInput, AgentOutcome,
  refused, is_failed,
}
use a2a_gateway_mcp.Tool.Broadcast.Transports.{
  streamed, broadcast_via_streaming, sent, broadcast_direct,
}
use a2a_gateway_mcp.Tool.Broadcast.Agent.{
  turned_down, transmitted, with_client, limited, to_registered, broadcast_to_agent, entry_target,
  message_request,
}
use a2a_gateway_mcp.Tool.Send.{Environment, SendMessageRequest, Live}
use a2a_gateway_mcp.Tool.Broadcast.Outcome.{
  Spares, retry-Spares, Tells, told-Tells, after_stream-told, after_send-told,
}

module _ (E : Environment) where
  open E use {limiting, sdk, decode_string, sprintf, record_input}

  transport-Tells :
      (b : Bool) (timeout : ℕ) (client : sdk.Client) (request : SendMessageRequest) (alias : String)
      (input : BroadcastMessageInput) (resolved : ResolveResult) (s : Live E)
      → Tells E alias input s (
          if b
          then broadcast_via_streaming E timeout client request alias input resolved s
          else broadcast_direct E client request alias input resolved s)
  unfolding broadcast_via_streaming broadcast_direct
  transport-Tells true timeout client request alias input resolved s =
      after_stream-told E alias input s _ (
        retry-Spares E resolved (streamed E timeout request) (streamed E timeout request client s).0
          (streamed E timeout request client s).1 (λ c t. (refl, refl, refl, refl, refl)))
  transport-Tells false timeout client request alias input resolved s =
      after_send-told E alias input s _ (
        retry-Spares E resolved (sent E request) (sent E request client s).0
          (sent E request client s).1 (λ c t. (refl, refl, refl, refl, refl)))

  refused-Tells :
      (alias status e : String) (input : BroadcastMessageInput) (s s' : Live E)
      → is_failed E status ≡ true
      → Spares E s s'
      → Tells E alias input s (turned_down E alias input status e s')
  refused-Tells alias status e input s s' f p =
      told-Tells E alias input s (refused status e, s') (rw f refl) p

  transmitted-Tells :
      (timeout : ℕ) (alias : String) (input : BroadcastMessageInput) (resolved : ResolveResult)
      (client : sdk.Client) (parts : Result (List (Option Part))) (s : Live E)
      → Tells E alias input s (transmitted E timeout alias input resolved client parts s)
  transmitted-Tells timeout alias input resolved client (err e) s =
      refused-Tells alias "error" (error_text sprintf e) input s s refl
        (refl, refl, refl, refl, refl)
  transmitted-Tells timeout alias input resolved client (ok parts) s =
      transport-Tells (supports_streaming s.stores.agents resolved) timeout client
        (message_request E input parts s) alias input resolved s

  with_client-Tells :
      (timeout : ℕ) (alias : String) (input : BroadcastMessageInput) (resolved : ResolveResult)
      (out : Result sdk.Client × ClientResolver sdk) (s : Live E)
      → Tells E alias input s (with_client E timeout alias input resolved out s)
  with_client-Tells timeout alias input resolved (err e, clients) s =
      refused-Tells alias "error"
        (sprintf "failed to resolve client: %v" (text (error_text sprintf e) ∷ [])) input s
        (with_stores E (λ st. record st { clients = clients }) s) refl
        (refl, refl, refl, refl, refl)
  with_client-Tells timeout alias input resolved (ok client, clients) s =
      transmitted-Tells timeout alias input resolved client
        (build_message_parts decode_string input.message input.parts)
        (with_stores E (λ st. record st { clients = clients }) s)

  limited-Tells :
      (timeout : ℕ) (alias : String) (input : BroadcastMessageInput) (entry : RegisteredAgent)
      (out : Bool × RateLimiterRegistry limiting) (s : Live E)
      → Tells E alias input s (limited E timeout alias input entry out s)
  limited-Tells timeout alias input entry (false, limits) s =
      refused-Tells alias "error"
        (sprintf "rate limited: agent %q has exceeded its rate limit" (text alias ∷ [])) input s
        (with_stores E (λ st. record st { limits = limits }) s) refl (refl, refl, refl, refl, refl)
  limited-Tells timeout alias input entry (true, limits) s =
      with_client-Tells timeout alias input (entry_target E alias entry)
        (resolve sdk s.stores.agents (entry_target E alias entry) s.stores.clients)
        (with_stores E (λ st. record st { limits = limits }) s)

  choice-Tells :
      (b : Bool) (alias : String) (input : BroadcastMessageInput) (s : Live E)
      (x y : AgentOutcome × Live E)
      → Tells E alias input s x
      → Tells E alias input s y
      → Tells E alias input s (if b then x else y)
  choice-Tells true alias input s x y p q = p
  choice-Tells false alias input s x y p q = q

  registered-Tells :
      (now timeout : ℕ) (alias : String) (input : BroadcastMessageInput)
      (entry : Option RegisteredAgent) (s : Live E)
      → Tells E alias input s (to_registered E now timeout alias input entry s)
  registered-Tells now timeout alias input none s =
      refused-Tells alias "error" (sprintf "alias %q is not registered" (text alias ∷ [])) input s s
        refl (refl, refl, refl, refl, refl)
  registered-Tells now timeout alias input (some entry) s =
      choice-Tells
        (Tracker.is_enabled s.stores.health && not (Tracker.is_healthy alias s.stores.health)) alias
        input s _ _
        (refused-Tells alias "skipped" "agent is unhealthy" input s s refl
          (refl, refl, refl, refl, refl))
        (limited-Tells timeout alias input entry (Limits.allow limiting now alias s.stores.limits)
          s)

  pub broadcast-Tells :
      (now timeout : ℕ) (alias : String) (input : BroadcastMessageInput) (s : Live E)
      → Tells E alias input s (broadcast_to_agent E now timeout alias input s)
  unfolding broadcast_to_agent
  broadcast-Tells now timeout alias input s =
      registered-Tells now timeout alias input (Agents.lookup alias s.stores.agents) s
