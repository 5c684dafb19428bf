-- ===== src/Examples/Stores.antt =====
-- The stores of a session, with one or two agents.
use a2a_gateway_mcp.Prelude.{
  ◌↔◌, ◌≤◌, eq_refl, ◌∙◌, ◌≡◌, refl, false, none, some, List, [], ◌∷◌, String, ◌==◌,
}
use a2a_gateway_mcp.GoMap
use a2a_gateway_mcp.History.Recorder.{rune_count}
use a2a_gateway_mcp.Validate.{validate_alias}
use a2a_gateway_mcp.Validate.Aliases.{IsAliasText, validate_alias_iff}
use a2a_gateway_mcp.GoMap.{GoMap}
use a2a_gateway_mcp.Errors.{ok}
use a2a_gateway_mcp.Registry.Agents
use a2a_gateway_mcp.Registry.Agents.{RegisteredAgent, AgentRegistry, new_agent_registry, values}
use a2a_gateway_mcp.Registry.Agents.Runs.{
  Call, connects, disconnects, sets_card, run, current, lookup-run,
}
use a2a_gateway_mcp.Registry.Clients
use a2a_gateway_mcp.Registry.Clients.{new_client_resolver, resolve, evict}
use a2a_gateway_mcp.Registry.Clients.Cache.{resolve_shares, headers_for, fresh}
use a2a_gateway_mcp.Registry.Http.{Headers, Lacks, provided, static, round_trip, round_trip_keeps}
use a2a_gateway_mcp.A2a.{AgentCard, http_json}
use a2a_gateway_mcp.Examples.Fixtures.{plain_clients, target, card_named}

abbrev calls : List (String × Call)
calls =
    ("b", connects "https://b" GoMap.empty "")
    ∷ (("a", connects "https://a" GoMap.empty "/healthz")
        ∷ (("a", sets_card (card_named "a")) ∷ (("b", disconnects) ∷ [])))

lookup-run_example : Agents.lookup "a" (run calls new_agent_registry) ≡ current "a" calls none
lookup-run_example = lookup-run "a" calls

no_client : GoMap.lookup "https://example.org" (new_client_resolver plain_clients).clients ≡ none
unfolding new_client_resolver
no_client = GoMap.lookup-empty "https://example.org"

pub fresh-target :
    fresh plain_clients new_agent_registry (target "a")
    ≡ ok ("https://example.org", Clients.http_client_for_resolved (target "a"))
unfolding Clients.create_client Clients.find_card Agents.list Clients.card_in new_agent_registry
    GoMap.entries GoMap.empty Agents.sort_by_alias
fresh-target = refl

-- Headers by name, their names told apart exactly.
header-set : (k v : String) (h : GoMap String) → GoMap.lookup k (GoMap.insert k v h) ≡ some v
header-set k v h = GoMap.lookup-insert k k v h ∙ rw (eq_refl k) refl

header-other :
    (k j v : String) (h : GoMap String)
    → (k == j) ≡ false
    → GoMap.lookup j (GoMap.insert k v h) ≡ GoMap.lookup j h
header-other k j v h e = GoMap.lookup-insert k j v h ∙ rw e refl

abbrev exact_headers : Headers
exact_headers = record {
  H = GoMap String;
  equal_fold = λ a b. a == b;
  header = GoMap.lookup;
  set_header = GoMap.insert;
  header-set = header-set;
  header-other = header-other;
}

-- The headers of an agent that is configured with an `Accept` of its own.
abbrev overriding : GoMap String
overriding = GoMap.insert "Accept" "text/plain" (GoMap.insert "X-Key" "k" GoMap.empty)

overriding-entries :
    GoMap.entries (provided (static overriding) new_agent_registry)
    ≡ ("X-Key", "k") ∷ (("Accept", "text/plain") ∷ [])
unfolding provided GoMap.entries GoMap.insert GoMap.empty
overriding-entries = refl

overriding-Lacks :
    Lacks exact_headers "X-Other" (GoMap.entries (provided (static overriding) new_agent_registry))
unfolding provided GoMap.entries GoMap.insert GoMap.empty
overriding-Lacks = (refl, (refl, tt))

abbrev accepting : GoMap String
accepting = GoMap.insert "Accept" "application/json" GoMap.empty

abbrev sent : GoMap String
sent = round_trip (λ a b. a == b) GoMap.insert (static overriding) new_agent_registry accepting

round_trip_keeps_example :
    (GoMap.lookup "Content-Type" sent ≡ GoMap.lookup "Content-Type" accepting)
    × (GoMap.lookup "Accept" sent ≡ GoMap.lookup "Accept" accepting)
    × (GoMap.lookup "X-Key" sent ≡ some "k")
    × (GoMap.lookup "X-Other" sent ≡ GoMap.lookup "X-Other" accepting)
round_trip_keeps_example =
    round_trip_keeps exact_headers (static overriding) new_agent_registry accepting "X-Key" "k"
      "X-Other" [] (("Accept", "text/plain") ∷ []) overriding-entries refl refl (refl, tt)
      overriding-Lacks

-- An agent that is registered as "a" with a card that speaks HTTP with JSON.
abbrev rest_card : AgentCard
rest_card = record (card_named "a") {
  supported_interfaces = record { url = "https://example.org"; protocol_binding = http_json } ∷ [];
}

abbrev rest_agent : RegisteredAgent
rest_agent = record {
  alias = "a";
  url = "https://example.org";
  headers = GoMap.empty;
  card = some rest_card;
  ping_endpoint = "";
}

abbrev with_rest_agent : AgentRegistry
with_rest_agent = record { entries = GoMap.insert "a" rest_agent GoMap.empty }

rest_listed : Agents.list with_rest_agent ≡ rest_agent ∷ []
unfolding Agents.list Agents.sort_by_alias GoMap.entries GoMap.insert GoMap.empty
rest_listed = refl

resolve_shares_example :
    ((resolve plain_clients with_rest_agent (target "a") (new_client_resolver plain_clients)).0
      ≡ ok ("a", headers_for plain_clients (target "a")))
    × ((resolve plain_clients new_agent_registry
          (target "b")
          (resolve plain_clients with_rest_agent
            (target "a")
            (new_client_resolver plain_clients)).1).0
        ≡ ok ("a", headers_for plain_clients (target "a")))
resolve_shares_example =
    resolve_shares plain_clients with_rest_agent new_agent_registry (target "a") (target "b")
      (new_client_resolver plain_clients) [] [] rest_agent rest_card
      (record { url = "https://example.org"; protocol_binding = http_json }) []
      ("a", headers_for plain_clients (target "a")) no_client refl rest_listed tt refl refl refl
      refl refl

validate_alias_iff_example :
    (validate_alias "a-1" ≡ none)
    ↔ ((1 ≤ rune_count "a-1") × (rune_count "a-1" ≤ 64) × IsAliasText "a-1")
validate_alias_iff_example = validate_alias_iff "a-1"
