-- ===== src/Tool/Reading/Effects.antt =====
-- What the tools show of the history, and what becomes of a failed send in the inbox.
use a2a_gateway_mcp.Prelude.{
  ◌∷◌, ℕ, suc, ◌≡◌, ◌≢◌, refl, ap, ◌∙◌, false, none, some, List, [], String, ◌==◌, if◌then◌else◌,
  Bool-cases, inl, inr, eq_iff, eq_refl, arith, length, ltb,
}
use a2a_gateway_mcp.Prelude.Int.{pos}
use a2a_gateway_mcp.GoMap
use a2a_gateway_mcp.Errors.{ok, text, Formatted}
use a2a_gateway_mcp.History.Entries.{Entry, last_n, last_n_short}
use a2a_gateway_mcp.History.Memory
use a2a_gateway_mcp.History.Memory.{MemoryBackend}
use a2a_gateway_mcp.Registry.Agents
use a2a_gateway_mcp.Registry.Agents.{AgentRegistry, RegisteredAgent}
use a2a_gateway_mcp.Tool.Reading.{most_recent, get_history, clear_history}

pub unnamed : (agent : String) → agent ≢ "" → (agent == "") ≡ false
unnamed agent h = elim (Bool-cases (agent == "")) [
  | inl q ↦ absurd (h ((eq_iff agent "").0 q))
  | inr q ↦ q
]

most_recent_last :
    (n : ℕ) (entries : List Entry)
    → most_recent (some (pos (suc n))) entries ≡ last_n (suc n) entries
unfolding last_n
most_recent_last n entries = elim (Bool-cases (ltb (suc n) (length entries))) [
  | inl q ↦ ground arith
  | inr q ↦ ground (arith, last_n_short (suc n) entries)
]

list-clear :
    (alias b : String) (m : MemoryBackend)
    → Memory.list b (Memory.clear alias m) ≡ (if alias == b then [] else Memory.list b m)
unfolding Memory.list Memory.clear
list-clear alias b m = ground (arith, GoMap.lookup-delete alias b m.entries)

-- A registered agent's history is shown with a positive limit n as its last n entries, and without a
-- limit as all of them. Clearing it succeeds, and leaves a backend in which nothing is shown of this
-- agent, and the history of any other agent is what it was. On a server without history both tools
-- panic.
pub history-shown :
    (agent b : String) (n : ℕ) (agents : AgentRegistry) (entry : RegisteredAgent)
    (m : MemoryBackend)
    → agent ≢ ""
    → Agents.lookup agent agents ≡ some entry
    → b ≢ agent
    → (get_history agent (some (pos (suc n))) agents (some m)
        ≡ some (ok (last_n (suc n) (Memory.list agent m))))
      × (get_history agent none agents (some m) ≡ some (ok (Memory.list agent m)))
      × ((told : Formatted) × (m' : MemoryBackend) × (clear_history agent agents (some m)
            ≡ some (ok told, some m'))
          × (get_history agent none agents (some m') ≡ some (ok []))
          × (Memory.list b m' ≡ Memory.list b m))
      × (get_history agent none agents none ≡ none)
      × (clear_history agent agents none ≡ none)
unfolding get_history clear_history
history-shown agent b n agents entry m given registered ne =
    let named : (agent == "") ≡ false = unnamed agent given in
    (
      rw (named, registered) (ap (λ es. some (ok es)) (most_recent_last n (Memory.list agent m))),
      rw (named, registered) refl,
      (
        record { format = "Cleared history for agent %q"; args = text agent ∷ [] },
        Memory.clear agent m,
        rw (named, registered) refl,
        rw (named, registered)
            (ap (λ es. some (ok es)) (list-clear agent agent m ∙ rw (eq_refl agent) refl)),
        list-clear agent b m ∙ ground (arith, eq_iff agent b),
      ),
      rw (named, registered) refl,
      rw (named, registered) refl,
    )
