-- ===== src/Tool/Broadcast/Unhealthy.antt =====
-- What becomes of an agent that is unhealthy: it is not asked, and what the inbox gets of it.
use a2a_gateway_mcp.Prelude.{ℕ, ◌≡◌, refl, ap, true, false, some, String}
use a2a_gateway_mcp.Health.Tracker
use a2a_gateway_mcp.Registry.Agents
use a2a_gateway_mcp.Registry.Agents.{RegisteredAgent}
use a2a_gateway_mcp.Registry.Inbox.{deposit}
use a2a_gateway_mcp.Tool.Broadcast.{
  BroadcastMessageInput, refused, broadcast_entry, record_broadcast_history,
}
use a2a_gateway_mcp.Tool.Broadcast.Agent.{broadcast_to_agent}
use a2a_gateway_mcp.Tool.Broadcast.Handle.{background_broadcast_to_agent, blank, entry_of_outcome}
use a2a_gateway_mcp.Tool.Send.{Environment, Live}

module _ (E : Environment) where
  skipped_outcome :
      (now timeout : ℕ) (alias : String) (input : BroadcastMessageInput) (entry : RegisteredAgent)
      (s : Live E)
      → Agents.lookup alias s.stores.agents ≡ some entry
      → Tracker.is_enabled s.stores.health ≡ true
      → Tracker.is_healthy alias s.stores.health ≡ false
      → broadcast_to_agent E now timeout alias input s ≡ (
        refused "skipped" "agent is unhealthy",
        record s {
          log =
              E.record_input
                (broadcast_entry E alias input (refused "skipped" "agent is unhealthy").result)
                s.log;
        },
      )
  unfolding broadcast_to_agent record_broadcast_history
  skipped_outcome now timeout alias input entry s registered enabled ill =
      rw (registered, enabled, ill) refl

  -- A registered agent that is unhealthy is skipped: no call is made, no token of its limit is taken
  -- and no client is made for it; only the history tells of it. In the background of an asynchronous
  -- broadcast its inbox entry has neither a state nor an error nor an answer.
  pub unhealthy-skipped :
      (now later timeout : ℕ) (alias : String) (input : BroadcastMessageInput)
      (entry : RegisteredAgent) (s : Live E)
      → Agents.lookup alias s.stores.agents ≡ some entry
      → Tracker.is_enabled s.stores.health ≡ true
      → Tracker.is_healthy alias s.stores.health ≡ false
      → let out = broadcast_to_agent E now timeout alias input s in
        (out.0 ≡ refused "skipped" "agent is unhealthy")
        × (out.1.world ≡ s.world)
        × (out.1.stores ≡ s.stores)
        × ((background_broadcast_to_agent E now later timeout alias input s).stores.inbox
            ≡ deposit later (blank E alias) s.stores.inbox)
  unfolding background_broadcast_to_agent
  unhealthy-skipped now later timeout alias input entry s registered enabled ill =
      let e = skipped_outcome now timeout alias input entry s registered enabled ill in
      (
        ap (λ o. o.0) e,
        ap (λ o. o.1.world) e,
        ap (λ o. o.1.stores) e,
        ap (λ o. deposit later (entry_of_outcome E alias o.0) o.1.stores.inbox) e,
      )
