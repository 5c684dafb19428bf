-- ===== src/Tool/Connect/Effects.antt =====
-- What a connection leaves in the stores.
use a2a_gateway_mcp.Prelude.{
  inr, inl, Bool-cases, ◌≡◌, refl, ap, ◌∙◌, Option, none, some, String, ◌==◌, eq_refl,
  if◌then◌else◌,
}
use a2a_gateway_mcp.Prelude.Int.{is_zero}
use a2a_gateway_mcp.GoMap
use a2a_gateway_mcp.GoMap.{GoMap}
use a2a_gateway_mcp.A2a.{AgentCard}
use a2a_gateway_mcp.Validate.{ParsedUrl}
use a2a_gateway_mcp.Health.Tracker
use a2a_gateway_mcp.Health.Tracker.Runs as Resets
use a2a_gateway_mcp.Registry.Agents
use a2a_gateway_mcp.Registry.Agents.{AgentRegistry, RegisteredAgent, connected}
use a2a_gateway_mcp.Registry.Agents.Runs
use a2a_gateway_mcp.Registry.Contexts
use a2a_gateway_mcp.Registry.Clients.{A2aClients}
use a2a_gateway_mcp.Registry.Limits.{RateLimiting}
use a2a_gateway_mcp.Tool.Session.{Session}
use a2a_gateway_mcp.Tool.Connect.{
  ConnectAgentInput, ConnectAgentTool, validate_input, perform, handle, cleared, with_card,
  or_default,
}

module _ (R : RateLimiting) (S : A2aClients) where
  -- The agent that a connection registers.
  abbrev pub registered : ConnectAgentInput R → Option AgentCard → RegisteredAgent
  registered input fetched = record {
    alias = input.alias;
    url = input.agent_url;
    headers = input.headers;
    card = fetched;
    ping_endpoint = or_default R S input.ping_endpoint;
  }

  -- The conversation that goes on after a connection: that of an agent at the same URL.
  abbrev pub context_after : ConnectAgentInput R → Option RegisteredAgent → String → String
  context_after input none context_id = context_id
  context_after input (some existing) context_id =
      if existing.url == input.agent_url then context_id else ""

  agents-cleared :
      (input : ConnectAgentInput R) (e : Option RegisteredAgent) (s : Session R S)
      → (cleared R S input e s).agents ≡ s.agents
  agents-cleared input none s = refl
  agents-cleared input (some existing) s = refl

  -- The agents after the connection, and after the card that was fetched is set.
  entered : ConnectAgentInput R → AgentRegistry → AgentRegistry
  entered input r =
      (Agents.connect input.alias input.agent_url input.headers (or_default R S input.ping_endpoint)
        r).1

  lookup-entered :
      (input : ConnectAgentInput R) (b : String) (r : AgentRegistry)
      → Agents.lookup b (entered input r)
        ≡ (if input.alias == b then some (registered input none) else Agents.lookup b r)
  unfolding entered Agents.lookup Agents.connect
  lookup-entered input b r = GoMap.lookup-insert input.alias b (registered input none) r.entries

  lookup-set_card :
      (input : ConnectAgentInput R) (card : AgentCard) (b : String) (r : AgentRegistry)
      → Agents.lookup b (Agents.set_card input.alias card (entered input r)).1
        ≡ (if input.alias == b then some (registered input (some card)) else Agents.lookup b r)
  unfolding Runs.step Runs.changed
  lookup-set_card input card b r =
      Runs.lookup-step b input.alias (Runs.sets_card card) (entered input r)
      ∙ rw (lookup-entered input b r)
          (elim (Bool-cases (input.alias == b)) [ inl q ↦ rw q refl | inr q ↦ rw q refl ])

  lookup-perform :
      (c : ConnectAgentTool R) (fetched : Option AgentCard) (input : ConnectAgentInput R)
      (b : String) (s : Session R S)
      → Agents.lookup b (perform R S c fetched input s).agents
        ≡ (if input.alias == b then some (registered input fetched) else Agents.lookup b s.agents)
  unfolding perform entered
  lookup-perform c none input b s =
      rw (agents-cleared input (Agents.lookup input.alias s.agents) s)
        (lookup-entered input b s.agents)
  lookup-perform c (some card) input b s =
      rw (agents-cleared input (Agents.lookup input.alias s.agents) s)
        (lookup-set_card input card b s.agents)

  get-cleared :
      (input : ConnectAgentInput R) (e : Option RegisteredAgent) (s : Session R S)
      → Contexts.get input.alias (cleared R S input e s).contexts
        ≡ context_after input e (Contexts.get input.alias s.contexts)
  get-cleared input none s = refl
  get-cleared input (some existing) s = elim (Bool-cases (existing.url == input.agent_url)) [
    | inl q ↦ rw q refl
    | inr q ↦
        rw (q, Contexts.get-delete input.alias input.alias s.contexts, eq_refl input.alias) refl
  ]

  contexts-with_card :
      (alias : String) (fetched : Option AgentCard) (s : Session R S)
      → (with_card R S alias fetched s).contexts ≡ s.contexts
  contexts-with_card alias none s = refl
  contexts-with_card alias (some card) s = refl

  get-perform :
      (c : ConnectAgentTool R) (fetched : Option AgentCard) (input : ConnectAgentInput R)
      (s : Session R S)
      → Contexts.get input.alias (perform R S c fetched input s).contexts
        ≡ context_after input
            (Agents.lookup input.alias s.agents)
            (Contexts.get input.alias s.contexts)
  unfolding perform
  get-perform c none input s = get-cleared input (Agents.lookup input.alias s.agents) s
  get-perform c (some card) input s = get-cleared input (Agents.lookup input.alias s.agents) s

  health-cleared :
      (input : ConnectAgentInput R) (e : Option RegisteredAgent) (s : Session R S)
      → (cleared R S input e s).health ≡ s.health
  health-cleared input none s = refl
  health-cleared input (some existing) s = refl

  -- The health after a connection, seen from any agent.
  get-reset-perform :
      (c : ConnectAgentTool R) (fetched : Option AgentCard) (input : ConnectAgentInput R)
      (b : String) (s : Session R S)
      → Tracker.get b (perform R S c fetched input s).health
        ≡ Tracker.get b (Tracker.reset input.alias s.health)
  unfolding perform
  get-reset-perform c none input b s =
      ap (λ h. Tracker.get b (Tracker.reset input.alias h))
        (health-cleared input (Agents.lookup input.alias s.agents) s)
  get-reset-perform c (some card) input b s =
      ap (λ h. Tracker.get b (Tracker.reset input.alias h))
        (health-cleared input (Agents.lookup input.alias s.agents) s)

  -- A valid request of a connection leaves under its alias the agent with the card that was fetched,
  -- and the conversation under the alias unless an agent at another URL was there; every alias b but
  -- that one keeps its agent and its health, and with tracking on the health of the alias is unknown
  -- again.
  pub handle-connect :
      (parse : String → ParsedUrl) (c : ConnectAgentTool R) (fetched : Option AgentCard)
      (input : ConnectAgentInput R) (s : Session R S) (b : String)
      → validate_input R parse input ≡ none
      → let s' = (handle R S parse c fetched input s).1 in
        (Agents.lookup b s'.agents ≡ (
          if input.alias == b then some (registered input fetched) else Agents.lookup b s.agents))
        × (Contexts.get input.alias s'.contexts
            ≡ context_after input
                (Agents.lookup input.alias s.agents)
                (Contexts.get input.alias s.contexts))
        × (Tracker.get b s'.health ≡ (
            if is_zero s.health.threshold
            then Tracker.get b s.health
            else if input.alias == b
            then Tracker.unknown_state
            else Tracker.get b s.health))
  unfolding handle
  handle-connect parse c fetched input s b h = rw h (
    lookup-perform c fetched input b s,
    get-perform c fetched input s,
    get-reset-perform c fetched input b s ∙ Resets.get-reset input.alias b s.health,
  )
