-- ===== src/Tool/Broadcast/Summary.antt =====
-- What an asynchronous broadcast answers at once.
use a2a_gateway_mcp.Prelude.{Bool, ◌≡◌, List, String}
use a2a_gateway_mcp.GoMap
use a2a_gateway_mcp.GoMap.{GoMap}
use a2a_gateway_mcp.Registry.Agents
use a2a_gateway_mcp.Registry.Agents.{AgentRegistry}
use a2a_gateway_mcp.Registry.Limits
use a2a_gateway_mcp.Tool.Broadcast.Handle.{started}
use a2a_gateway_mcp.Tool.Send.{Environment, Live}
use a2a_gateway_mcp.Tool.Stream.Handling.{SendMessageOutput}
use a2a_gateway_mcp.Tool.Broadcast.Held.{IsSummary, Every, is_held, Reads}

module _ (E : Environment) where
  open E use {limiting, sprintf}

  -- Nothing but the limiters.
  abbrev pub OnlyLimits : Live E → Live E → Type 0
  OnlyLimits s s' =
      Reads E s s'
      × (s'.stores.inbox ≡ s.stores.inbox)
      × (s'.stores.health ≡ s.stores.health)
      × (s'.stores.clients ≡ s.stores.clients)
      × (s'.world ≡ s.world)
      × (s'.log ≡ s.log)

  -- What is dispatched is held, and nothing but the limiters changes.
  abbrev Dispatched :
      AgentRegistry → String → List String → Live E → SendMessageOutput × (Bool × Live E) → Type 0
  Dispatched agents alias waiting s (output, (start, s')) =
      IsSummary agents (is_held E alias (started E start alias waiting) s') alias output
      × OnlyLimits s s'

  -- The summary of the alias, if there is one.
  abbrev Summary : AgentRegistry → String → List String → Live E → GoMap SendMessageOutput → Type 0
  Summary agents k waiting s m =
      Every E (IsSummary agents (is_held E k waiting s) k) (GoMap.lookup k m)
