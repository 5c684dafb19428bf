-- ===== src/Tool/Disconnect/Effects.antt =====
-- What a disconnection leaves in the stores.
use a2a_gateway_mcp.Prelude.{
  inr, inl, Option-cases, ◌≡◌, refl, Option, none, some, List, [], ◌∷◌, String, ◌==◌, arith,
  if◌then◌else◌,
}
use a2a_gateway_mcp.Prelude.Int.{pos, is_zero}
use a2a_gateway_mcp.GoMap
use a2a_gateway_mcp.Errors.{Error, ok, err, errorf, text}
use a2a_gateway_mcp.Validate.{validate_alias}
use a2a_gateway_mcp.Health.Tracker
use a2a_gateway_mcp.Health.Tracker.Runs as Resets
use a2a_gateway_mcp.History.Entries.{Entry}
use a2a_gateway_mcp.History.Memory
use a2a_gateway_mcp.History.Memory.{MemoryBackend}
use a2a_gateway_mcp.History.Memory.Depth
use a2a_gateway_mcp.Registry.Agents
use a2a_gateway_mcp.Registry.Agents.{RegisteredAgent, AgentRegistry}
use a2a_gateway_mcp.Registry.Agents.Runs
use a2a_gateway_mcp.Registry.Contexts
use a2a_gateway_mcp.Registry.Clients
use a2a_gateway_mcp.Registry.Clients.{A2aClients}
use a2a_gateway_mcp.Registry.Limits
use a2a_gateway_mcp.Registry.Limits.{RateLimiting}
use a2a_gateway_mcp.Registry.Limits.Config as LimitLaws
use a2a_gateway_mcp.Tool.Session.{Session}
use a2a_gateway_mcp.Tool.Disconnect.{forgotten, clean_up, handle}

-- The history of one agent, empty where the gateway keeps none.
abbrev pub history_of : String → Option MemoryBackend → List Entry
history_of alias none = []
history_of alias (some backend) = Memory.list alias backend

history_of-forgotten :
    (alias b : String) (h : Option MemoryBackend)
    → history_of b (forgotten alias h) ≡ (if alias == b then [] else history_of b h)
history_of-forgotten alias b none = ground arith
history_of-forgotten alias b (some backend) = (Depth.list-delete alias b backend).0

disconnect_found :
    (alias : String) (entry : RegisteredAgent) (r : AgentRegistry)
    → Agents.lookup alias r ≡ some entry
    → Agents.disconnect alias r ≡ (some entry, (Agents.disconnect alias r).1)
unfolding Agents.disconnect Agents.lookup
disconnect_found alias entry r e = rw (e, Agents.disconnect) refl

disconnect_missing :
    (alias : String) (r : AgentRegistry)
    → Agents.lookup alias r ≡ none
    → Agents.disconnect alias r ≡ (none, r)
unfolding Agents.disconnect Agents.lookup
disconnect_missing alias r e = rw (e, Agents.disconnect) refl

module _ (R : RateLimiting) (S : A2aClients) where
  -- The session without that agent.
  gone : String → Session R S → Session R S
  gone alias s = record s { agents = (Agents.disconnect alias s.agents).1 }

  handle_found :
      (alias : String) (entry : RegisteredAgent) (s : Session R S)
      → validate_alias alias ≡ none
      → Agents.lookup alias s.agents ≡ some entry
      → handle R S alias s ≡ (
        ok (record { format = "Disconnected agent %q"; args = text alias ∷ [] }),
        clean_up R S alias entry (gone alias s),
      )
  unfolding handle gone
  handle_found alias entry s v e = rw v (rw (disconnect_found alias entry s.agents e) refl)

  lookup-gone :
      (alias b : String) (s : Session R S)
      → Agents.lookup b (gone alias s).agents
        ≡ (if alias == b then none else Agents.lookup b s.agents)
  unfolding gone Runs.step Runs.changed
  lookup-gone alias b s = Runs.lookup-step b alias Runs.disconnects s.agents

  -- A disconnection of a registered agent succeeds. After it the alias has no agent, no
  -- conversation, no limit and no history, with tracking on its health is unknown again, and no
  -- client is cached for the URL of the agent; every other alias keeps all of these but, at the same
  -- URL, the client.
  pub handle-disconnect :
      (alias b : String) (entry : RegisteredAgent) (s : Session R S)
      → validate_alias alias ≡ none
      → Agents.lookup alias s.agents ≡ some entry
      → let s' = (handle R S alias s).1 in
        ((handle R S alias s).0
          ≡ ok (record { format = "Disconnected agent %q"; args = text alias ∷ [] }))
        × (Agents.lookup b s'.agents ≡ (if alias == b then none else Agents.lookup b s.agents))
        × (Contexts.get b s'.contexts ≡ (if alias == b then "" else Contexts.get b s.contexts))
        × (Limits.get R b s'.limits ≡ (if alias == b then none else Limits.get R b s.limits))
        × (history_of b s'.history ≡ (if alias == b then [] else history_of b s.history))
        × (Tracker.get b s'.health ≡ (
            if is_zero s.health.threshold
            then Tracker.get b s.health
            else if alias == b
            then Tracker.unknown_state
            else Tracker.get b s.health))
        × (GoMap.lookup b s'.clients.clients
            ≡ (if entry.url == b then none else GoMap.lookup b s.clients.clients))
  unfolding clean_up gone Clients.evict
  handle-disconnect alias b entry s v e = rw (handle_found alias entry s v e) (
    refl,
    lookup-gone alias b s,
    Contexts.get-delete alias b s.contexts,
    (LimitLaws.limit-set R alias b R.float_zero (pos 0) s.limits).1,
    history_of-forgotten alias b s.history,
    Resets.get-reset alias b s.health,
    GoMap.lookup-delete entry.url b s.clients.clients,
  )

  -- A disconnection of an alias under which no agent is registered, valid or not, fails and changes
  -- nothing.
  pub disconnect_fails :
      (alias : String) (s : Session R S)
      → Agents.lookup alias s.agents ≡ none
      → (e : Error) × (handle R S alias s ≡ (err e, s))
  unfolding handle
  disconnect_fails alias s h = elim (Option-cases (validate_alias alias)) [
    | inl v ↦ (
      errorf "agent %q not found in registry" (text alias ∷ []),
      rw v (rw (disconnect_missing alias s.agents h) refl),
    )
    | inr (e, v) ↦ (e, rw v refl)
  ]
