-- ===== src/Directory/Cards.antt =====
-- directory/registry.go: the in-memory registry of agent cards, which never returns an error.
use a2a_gateway_mcp.Prelude.{ℕ, Bool, true, false, none, some, List, map, String}
use a2a_gateway_mcp.GoMap
use a2a_gateway_mcp.GoMap.{GoMap}
use a2a_gateway_mcp.A2a.{AgentCard}

pub record MemoryRegistry : Type 0 where
  pub cards : GoMap AgentCard

unfoldable pub new_memory_registry : MemoryRegistry
new_memory_registry = record { cards = GoMap.empty }

unfoldable pub register : AgentCard → MemoryRegistry → MemoryRegistry
register card r = record { cards = GoMap.insert card.name card r.cards }

unfoldable pub unregister : String → MemoryRegistry → Bool × MemoryRegistry
unregister name r = elim (GoMap.lookup name r.cards) [
  | none ↦ (false, r)
  | some card ↦ (true, record { cards = GoMap.delete name r.cards })
]

-- The cards in the order in which the loop over the map meets them, which Go leaves open: `order`
-- rearranges the entries.
unfoldable pub list : (List AgentCard → List AgentCard) → MemoryRegistry → List AgentCard
list order r = order (map (λ p. p.1) (GoMap.entries r.cards))

unfoldable pub len : MemoryRegistry → ℕ
len r = GoMap.size r.cards
