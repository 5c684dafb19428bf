-- ===== src/Registry/Contexts.antt =====
-- registry/context_store.go: the conversation that a message to an agent goes on with.
use a2a_gateway_mcp.Prelude.{◌≡◌, Option, none, some, String, ◌==◌, arith, if◌then◌else◌}
use a2a_gateway_mcp.GoMap
use a2a_gateway_mcp.GoMap.{GoMap}

pub record ContextStore : Type 0 where
  pub contexts : GoMap String

unfoldable pub new_context_store : ContextStore
new_context_store = record { contexts = GoMap.empty }

-- The empty text stands for a missing key.
abbrev pub or_empty : Option String → String
or_empty none = ""
or_empty (some s) = s

unfoldable pub get : String → ContextStore → String
get alias cs = or_empty (GoMap.lookup alias cs.contexts)

unfoldable pub set : String → String → ContextStore → ContextStore
set alias context_id cs =
    if context_id == ""
    then cs
    else record cs { contexts = GoMap.insert alias context_id cs.contexts }

unfoldable pub delete : String → ContextStore → ContextStore
delete alias cs = record cs { contexts = GoMap.delete alias cs.contexts }

-- `set` changes the context of its alias alone, and not to the empty one.
pub get-set :
    (alias b id : String) (cs : ContextStore)
    → get b (set alias id cs) ≡ (if id == "" then get b cs else if alias == b then id else get b cs)
unfolding get set
get-set alias b id cs = ground (arith, GoMap.lookup-insert alias b id cs.contexts)

-- `delete` forgets the context of its alias alone.
pub get-delete :
    (alias b : String) (cs : ContextStore)
    → get b (delete alias cs) ≡ (if alias == b then "" else get b cs)
unfolding get delete
get-delete alias b cs = ground (arith, GoMap.lookup-delete alias b cs.contexts)
