-- ===== src/Registry/Agents/Runs.antt =====
-- What any calls on the registry leave under one alias.
use a2a_gateway_mcp.Prelude.{
  ◌≡◌, refl, ap, ◌∙◌, Option, none, some, List, [], ◌∷◌, String, ◌==◌, eq_iff, arith, if◌then◌else◌,
  Option-cases, inl, inr, is_some,
}
use a2a_gateway_mcp.GoMap
use a2a_gateway_mcp.GoMap.{GoMap}
use a2a_gateway_mcp.A2a.{AgentCard}
use a2a_gateway_mcp.Registry.Agents.{
  RegisteredAgent, AgentRegistry, new_agent_registry, lookup, connected, connect, disconnect,
  set_card,
}

pub data Call : Type 0 where
  connects : String → GoMap String → String → Call
  disconnects : Call
  sets_card : AgentCard → Call

unfoldable pub step : String × Call → AgentRegistry → AgentRegistry
step (alias, connects url headers ping) r = (connect alias url headers ping r).1
step (alias, disconnects) r = (disconnect alias r).1
step (alias, sets_card card) r = (set_card alias card r).1

unfoldable pub run : List (String × Call) → AgentRegistry → AgentRegistry
run [] r = r
run (c ∷ cs) r = run cs (step c r)

-- What one call makes of the agent under its alias.
unfoldable pub changed : String → Call → Option RegisteredAgent → Option RegisteredAgent
changed alias (connects url headers ping) e = some (connected alias url headers ping)
changed alias disconnects e = none
changed alias (sets_card card) none = none
changed alias (sets_card card) (some e) = some (record e { card = some card })

abbrev pub current : String → List (String × Call) → Option RegisteredAgent → Option RegisteredAgent
current alias [] e = e
current alias ((a, c) ∷ cs) e = current alias cs (if a == alias then changed alias c e else e)

pub lookup-step :
    (alias a : String) (c : Call) (r : AgentRegistry)
    → lookup alias (step (a, c) r)
      ≡ (if a == alias then changed alias c (lookup alias r) else lookup alias r)
unfolding lookup step connect disconnect set_card changed
lookup-step alias a (connects url headers ping) r =
    rw (GoMap.lookup-insert a alias (connected a url headers ping) r.entries)
      (ground (arith, eq_iff a alias))
lookup-step alias a disconnects r = elim (Option-cases (GoMap.lookup a r.entries)) [
  | inl e ↦ rw (e, step) (ground (arith, e, eq_iff a alias))
  | inr (x, e) ↦ rw (e, step) (GoMap.lookup-delete a alias r.entries)
]
lookup-step alias a (sets_card card) r = elim (Option-cases (GoMap.lookup a r.entries)) [
  | inl e ↦ rw (e, step) (ground (arith, e, eq_iff a alias))
  | inr (x, e) ↦
      rw (e, step)
        (ground (
          arith,
          e,
          eq_iff a alias,
          GoMap.lookup-insert a alias (record x { card = some card }) r.entries,
        ))
]

lookup-run' :
    (alias : String) (cs : List (String × Call)) (r : AgentRegistry)
    → lookup alias (run cs r) ≡ current alias cs (lookup alias r)
unfolding run
lookup-run' alias [] r = refl
lookup-run' alias ((a, c) ∷ cs) r =
    lookup-run' alias cs (step (a, c) r) ∙ ap (current alias cs) (lookup-step alias a c r)

-- After any calls on a new registry an alias has the agent of its last connection since it was last
-- disconnected, with the card that was last set since then, and no card before; calls for other
-- aliases make no difference.
pub lookup-run :
    (alias : String) (cs : List (String × Call))
    → lookup alias (run cs new_agent_registry) ≡ current alias cs none
unfolding lookup new_agent_registry
lookup-run alias cs =
    lookup-run' alias cs new_agent_registry ∙ ap (current alias cs) (GoMap.lookup-empty alias)

-- What the calls answer: `connect` and `set_card` whether the alias was there, `disconnect` the entry
-- that it removes.
pub answers :
    (alias url ping : String) (headers : GoMap String) (card : AgentCard) (r : AgentRegistry)
    → ((connect alias url headers ping r).0 ≡ is_some (lookup alias r))
      × ((set_card alias card r).0 ≡ is_some (lookup alias r))
      × ((disconnect alias r).0 ≡ lookup alias r)
unfolding lookup connect set_card disconnect
answers alias url ping headers card r = ground arith
