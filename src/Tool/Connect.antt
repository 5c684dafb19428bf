-- ===== src/Tool/Connect.antt =====
-- internal/tool/tool_connect.go: connect_agent. The fetch of the card is an argument: what
-- FetchAgentCard returned, nil being `none`.
pub mod Effects
pub mod Defaults
use a2a_gateway_mcp.Prelude.{
  ◌≡◌, Bool, true, false, not, ◌&&◌, ◌||◌, Option, none, some, List, [], ◌∷◌, String, ◌==◌,
  if◌then◌else◌, is_some,
}
use a2a_gateway_mcp.Prelude.Int.{ℤ, pos, is_negative}
use a2a_gateway_mcp.GoMap.{GoMap}
use a2a_gateway_mcp.Errors.{Error, Result, ok, err, errorf, text, Formatted}
use a2a_gateway_mcp.A2a.{AgentCard}
use a2a_gateway_mcp.Validate.{
  ParsedUrl, validate_alias, validate_url, validate_headers, validate_ping_endpoint,
}
use a2a_gateway_mcp.Health.Tracker
use a2a_gateway_mcp.Registry.Agents
use a2a_gateway_mcp.Registry.Agents.{RegisteredAgent}
use a2a_gateway_mcp.Registry.Contexts
use a2a_gateway_mcp.Registry.Clients
use a2a_gateway_mcp.Registry.Clients.{A2aClients}
use a2a_gateway_mcp.Registry.Limits
use a2a_gateway_mcp.Registry.Limits.{RateLimiting, RateLimitConfig, RateLimiterRegistry}
use a2a_gateway_mcp.Tool.Session.{Session}

module _ (R : RateLimiting) where
  open R use {Float, float_zero, is_below_zero}

  pub record ConnectAgentInput : Type 0 where
    pub alias : String
    pub agent_url : String
    pub headers : GoMap String
    pub ping_endpoint : Option String
    pub rate_limit_rps : Option Float
    pub rate_limit_burst : Option ℤ

  pub record ConnectAgentTool : Type 0 where
    pub default_rate_limit : RateLimitConfig R

  -- NewConnectAgentTool, of the default in the environment: the field of the tool keeps its zero value.
  unfoldable pub new_connect_agent_tool : RateLimitConfig R → ConnectAgentTool
  new_connect_agent_tool default_rate_limit = record {
    default_rate_limit = record { requests_per_second = float_zero; burst = pos 0 };
  }

  infixr 6 ◌or_else◌
  -- The first error.
  abbrev pub ◌or_else◌ : Option Error → Option Error → Option Error
  none or_else later = later
  some e or_else later = some e

  abbrev checked_ping : Option String → Option Error
  checked_ping none = none
  checked_ping (some endpoint) = validate_ping_endpoint endpoint

  abbrev both_or_none : Bool → Bool → Option Error
  both_or_none true true = none
  both_or_none false false = none
  both_or_none true false =
      some (errorf "rate_limit_rps and rate_limit_burst must both be provided together" [])
  both_or_none false true =
      some (errorf "rate_limit_rps and rate_limit_burst must both be provided together" [])

  abbrev checked_rps : Option Float → Option Error
  checked_rps none = none
  checked_rps (some rps) =
      if is_below_zero rps then some (errorf "rate_limit_rps must be non-negative" []) else none

  abbrev checked_burst : Option ℤ → Option Error
  checked_burst none = none
  checked_burst (some b) =
      if is_negative b then some (errorf "rate_limit_burst must be non-negative" []) else none

  unfoldable pub validate_input : (String → ParsedUrl) → ConnectAgentInput → Option Error
  validate_input parse input =
      validate_alias input.alias
      or_else (validate_url parse input.agent_url
          or_else (validate_headers input.headers
              or_else (checked_ping input.ping_endpoint
                  or_else (both_or_none (is_some input.rate_limit_rps)
                        (is_some input.rate_limit_burst)
                      or_else (checked_rps input.rate_limit_rps
                          or_else checked_burst input.rate_limit_burst)))))

  abbrev configured : String → RateLimitConfig R → RateLimiterRegistry R → RateLimiterRegistry R
  configured alias cfg limits =
      if Limits.is_disabled R cfg
      then Limits.remove R alias limits
      else Limits.set R alias cfg.requests_per_second cfg.burst limits

  abbrev by_default : String → RateLimitConfig R → RateLimiterRegistry R → RateLimiterRegistry R
  by_default alias cfg limits =
      if not (Limits.is_disabled R cfg)
      then Limits.set R alias cfg.requests_per_second cfg.burst limits
      else limits

  abbrev limits_for :
      RateLimitConfig R
      → String
      → Option Float
      → Option ℤ
      → RateLimiterRegistry R
      → RateLimiterRegistry R
  limits_for default alias (some rps) (some b) limits =
      configured alias (record { requests_per_second = rps; burst = b }) limits
  limits_for default alias none b limits = by_default alias default limits
  limits_for default alias (some rps) none limits = by_default alias default limits

  unfoldable pub configure_rate_limit :
      ConnectAgentTool → ConnectAgentInput → RateLimiterRegistry R → RateLimiterRegistry R
  configure_rate_limit c input limits =
      limits_for c.default_rate_limit input.alias input.rate_limit_rps input.rate_limit_burst limits

  module _ (S : A2aClients) where
    abbrev or_default : Option String → String
    or_default none = ""
    or_default (some endpoint) = endpoint

    -- What an existing connection under the alias leaves behind is cleared first.
    abbrev cleared : ConnectAgentInput → Option RegisteredAgent → Session R S → Session R S
    cleared input none s = s
    cleared input (some existing) s = record s {
      clients = Clients.evict S existing.url s.clients;
      contexts =
          if not (existing.url == input.agent_url)
          then Contexts.delete input.alias s.contexts
          else s.contexts;
    }

    abbrev with_card : String → Option AgentCard → Session R S → Session R S
    with_card alias none s = s
    with_card alias (some card) s = record s { agents = (Agents.set_card alias card s.agents).1 }

    -- The calls after the validation, in their order.
    unfoldable pub perform :
        ConnectAgentTool → Option AgentCard → ConnectAgentInput → Session R S → Session R S
    unfolding configure_rate_limit
    perform c fetched input s =
        let s₁ = cleared input (Agents.lookup input.alias s.agents) s in
        let s₂ : Session R S = record s₁ {
          agents =
              (Agents.connect input.alias input.agent_url input.headers
                (or_default input.ping_endpoint) s₁.agents).1;
        } in
        let s₃ : Session R S = record s₂ { limits = configure_rate_limit c input s₂.limits } in
        let s₄ = with_card input.alias fetched s₃ in
        record s₄ { health = Tracker.reset input.alias s₄.health }

    abbrev concluded :
        ConnectAgentTool
        → Option AgentCard
        → ConnectAgentInput
        → Option Error
        → Session R S
        → Result Formatted × Session R S
    concluded c fetched input (some e) s = (err e, s)
    concluded c fetched input none s = (
      ok (record {
        format = "Connected agent %q at %s";
        args = text input.alias ∷ (text input.agent_url ∷ []);
      }),
      perform c fetched input s,
    )

    unfoldable pub handle :
        (String → ParsedUrl)
        → ConnectAgentTool
        → Option AgentCard
        → ConnectAgentInput
        → Session R S
        → Result Formatted × Session R S
    unfolding validate_input perform
    handle parse c fetched input s = concluded c fetched input (validate_input parse input) s
