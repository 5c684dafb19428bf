-- ===== src/Registry/Agents.antt =====
-- registry/agent_registry.go: the agents that the session knows, by alias. An entry is a value here:
-- the code replaces the card of an entry in place, and keeps no pointer to an entry across that.
pub mod Listing
pub mod Runs
use Prim.Native.Char.{code}
use a2a_gateway_mcp.Prelude.{
  ℕ, Bool, true, false, Option, none, some, List, [], ◌∷◌, String, if◌then◌else◌, ltb, is_some, map,
  not,
}
use a2a_gateway_mcp.GoMap
use a2a_gateway_mcp.GoMap.{GoMap}
use a2a_gateway_mcp.A2a.{AgentCard}

pub record RegisteredAgent : Type 0 where
  pub alias : String
  pub url : String
  pub headers : GoMap String
  pub card : Option AgentCard
  pub ping_endpoint : String

pub record AgentRegistry : Type 0 where
  pub entries : GoMap RegisteredAgent

unfoldable pub new_agent_registry : AgentRegistry
new_agent_registry = record { entries = GoMap.empty }

unfoldable pub lookup : String → AgentRegistry → Option RegisteredAgent
lookup alias r = GoMap.lookup alias r.entries

-- The entry that a connection stores: the card is fetched later.
abbrev pub connected : String → String → GoMap String → String → RegisteredAgent
connected alias url headers ping_endpoint = record {
  alias = alias;
  url = url;
  headers = headers;
  card = none;
  ping_endpoint = ping_endpoint;
}

-- The flag says whether the alias was there already.
unfoldable pub connect :
    String → String → GoMap String → String → AgentRegistry → Bool × AgentRegistry
connect alias url headers ping_endpoint r = (
  is_some (GoMap.lookup alias r.entries),
  record r { entries = GoMap.insert alias (connected alias url headers ping_endpoint) r.entries },
)

unfoldable pub disconnect : String → AgentRegistry → Option RegisteredAgent × AgentRegistry
disconnect alias r = elim (GoMap.lookup alias r.entries) [
  | none ↦ (none, r)
  | some entry ↦ (some entry, record r { entries = GoMap.delete alias r.entries })
]

unfoldable pub set_card : String → AgentCard → AgentRegistry → Bool × AgentRegistry
set_card alias card r = elim (GoMap.lookup alias r.entries) [
  | none ↦ (false, r)
  | some entry ↦ (
    true,
    record r { entries = GoMap.insert alias (record entry { card = some card }) r.entries },
  )
]

-- a < b on texts: by the first character that differs
unfoldable pub text_lt : String → String → Bool
text_lt String.[] String.[] = false
text_lt String.[] (String.◌∷◌ d t) = true
text_lt (String.◌∷◌ c s) String.[] = false
text_lt (String.◌∷◌ c s) (String.◌∷◌ d t) =
    let rest = text_lt s t in
    if ltb (code c) (code d) then true else if ltb (code d) (code c) then false else rest

-- One more entry, put in its place among sorted ones.
unfoldable pub place : RegisteredAgent → List RegisteredAgent → List RegisteredAgent
place e [] = e ∷ []
place e (f ∷ fs) =
    let rest = place e fs in if text_lt f.alias e.alias then f ∷ rest else e ∷ (f ∷ fs)

-- sort.Slice by alias
unfoldable pub sort_by_alias : List RegisteredAgent → List RegisteredAgent
unfolding place
sort_by_alias [] = []
sort_by_alias (e ∷ es) = place e (sort_by_alias es)

-- The entries in the order in which a loop over the map meets them.
abbrev pub values : AgentRegistry → List RegisteredAgent
values r = map (λ p. p.1) (GoMap.entries r.entries)

unfoldable pub list : AgentRegistry → List RegisteredAgent
unfolding sort_by_alias
list r = sort_by_alias (values r)

unfoldable pub len : AgentRegistry → ℕ
len r = GoMap.size r.entries
