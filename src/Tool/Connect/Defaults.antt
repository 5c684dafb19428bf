-- ===== src/Tool/Connect/Defaults.antt =====
-- The default limit of the gateway at a connection.
use a2a_gateway_mcp.Prelude.{
  inr, inl, Bool-cases, ◌≡◌, refl, ap, true, Option, none, some, String, eq_refl, arith,
  if◌then◌else◌,
}
use a2a_gateway_mcp.A2a.{AgentCard}
use a2a_gateway_mcp.Validate.{ParsedUrl}
use a2a_gateway_mcp.Registry.Agents
use a2a_gateway_mcp.Registry.Agents.{AgentRegistry, RegisteredAgent, connected}
use a2a_gateway_mcp.Registry.Clients.{A2aClients}
use a2a_gateway_mcp.Registry.Limits.{RateLimiterRegistry, RateLimiting, RateLimitConfig}
use a2a_gateway_mcp.Registry.Limits
use a2a_gateway_mcp.Tool.Session.{Session}
use a2a_gateway_mcp.Tool.Connect.{
  configured, ConnectAgentInput, ConnectAgentTool, validate_input, perform, handle,
  new_connect_agent_tool, cleared, configure_rate_limit,
}
use a2a_gateway_mcp.Prelude.Int.{ℤ, pos}
use a2a_gateway_mcp.Registry.Limits.Config as LimitLaws

module _ (R : RateLimiting) (S : A2aClients) where
  limits-cleared :
      (input : ConnectAgentInput R) (e : Option RegisteredAgent) (s : Session R S)
      → (cleared R S input e s).limits ≡ s.limits
  limits-cleared input none s = refl
  limits-cleared input (some existing) s = refl

  pub limits-perform :
      (c : ConnectAgentTool R) (fetched : Option AgentCard) (input : ConnectAgentInput R)
      (s : Session R S)
      → (perform R S c fetched input s).limits ≡ configure_rate_limit R c input s.limits
  unfolding perform
  limits-perform c none input s =
      ap (configure_rate_limit R c input)
        (limits-cleared input (Agents.lookup input.alias s.agents) s)
  limits-perform c (some card) input s =
      ap (configure_rate_limit R c input)
        (limits-cleared input (Agents.lookup input.alias s.agents) s)

  is_disabled_zero :
      (rps : R.Float)
      → Limits.is_disabled R (record { requests_per_second = rps; burst = pos 0 }) ≡ true
  unfolding Limits.is_disabled
  is_disabled_zero rps = ground arith

  -- The tool that the gateway makes, whatever its default limit is, leaves every limiter as it is when
  -- a valid request gives no rate: the default is not applied to the new agent.
  pub default_unused :
      (parse : String → ParsedUrl) (default : RateLimitConfig R) (fetched : Option AgentCard)
      (input : ConnectAgentInput R) (s : Session R S)
      → validate_input R parse input ≡ none
      → input.rate_limit_rps ≡ none
      → (handle R S parse (new_connect_agent_tool R default) fetched input s).1.limits ≡ s.limits
  unfolding handle new_connect_agent_tool
  default_unused parse default fetched input s h no_rps =
      rw (h, limits-perform (new_connect_agent_tool R default) fetched input s)
        (unfold configure_rate_limit in rw (no_rps, is_disabled_zero R.float_zero) refl)

  get-configured :
      (alias : String) (rps : R.Float) (size : ℤ) (limits : RateLimiterRegistry R)
      → Limits.get R alias
          (configured R alias (record { requests_per_second = rps; burst = size }) limits)
        ≡ (if Limits.is_disabled_pair R rps size then none else some (rps, size))
  unfolding Limits.is_disabled
  get-configured alias rps size limits =
      let (sets, removes) = LimitLaws.limit-set R alias alias rps size limits in
      elim (Bool-cases (Limits.is_disabled_pair R rps size)) [
        | inl d ↦ rw (d, removes, eq_refl alias) refl
        | inr d ↦ rw (d, sets, eq_refl alias, d) refl
      ]

  -- A valid request with a rate and a burst sets the limit of its alias to them, or removes it where
  -- one of them is not positive, whatever default the tool has.
  pub given_limit :
      (parse : String → ParsedUrl) (c : ConnectAgentTool R) (fetched : Option AgentCard)
      (input : ConnectAgentInput R) (rps : R.Float) (size : ℤ) (s : Session R S)
      → validate_input R parse input ≡ none
      → input.rate_limit_rps ≡ some rps
      → input.rate_limit_burst ≡ some size
      → Limits.get R input.alias (handle R S parse c fetched input s).1.limits
        ≡ (if Limits.is_disabled_pair R rps size then none else some (rps, size))
  unfolding handle
  given_limit parse c fetched input rps size s h p q =
      rw (h, limits-perform c fetched input s)
        (unfold configure_rate_limit in rw (p, q) (get-configured input.alias rps size s.limits))
