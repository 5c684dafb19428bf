-- ===== src/Examples/Retry.antt =====
-- A call that is refused with the old client and succeeds with the new one; the world counts calls.
use a2a_gateway_mcp.Prelude.{
  ℕ, suc, ◌≡◌, Bool, true, false, Option, none, some, String, ◌==◌, if◌then◌else◌,
}
use a2a_gateway_mcp.GoMap
use a2a_gateway_mcp.Errors.{errors_is, Error, Target, foreign, unauthorized}
use a2a_gateway_mcp.Registry.Agents.{new_agent_registry}
use a2a_gateway_mcp.Registry.Clients.{ClientResolver, http_client_for_resolved}
use a2a_gateway_mcp.Registry.Http.{HeaderProvider, no_headers}
use a2a_gateway_mcp.Tool.Retry.{is_auth_error, resolve_client_with_auth_retry, retry_once}
use a2a_gateway_mcp.Examples.Fixtures.{plain_clients, target}
use a2a_gateway_mcp.Examples.Stores.{fresh-target}

abbrev refused : Target → Bool
refused unauthorized = true
refused _ = false

abbrev calling : String × HeaderProvider → ℕ → Option Error × ℕ
calling client n = (if client.0 == "stale" then some (foreign refused "401") else none, suc n)

abbrev stale : ClientResolver plain_clients
stale = record { clients = GoMap.insert "https://example.org" ("stale", no_headers) GoMap.empty }

retry_once_example :
    ((resolve_client_with_auth_retry plain_clients calling new_agent_registry
        (target "a")
        stale
        0).0
      ≡ none)
    × ((resolve_client_with_auth_retry plain_clients calling new_agent_registry
          (target "a")
          stale
          0).1.1
        ≡ 2)
    × (GoMap.lookup "https://example.org"
          (resolve_client_with_auth_retry plain_clients calling new_agent_registry
            (target "a")
            stale
            0).1.0.clients
        ≡ some ("https://example.org", http_client_for_resolved (target "a")))
unfolding is_auth_error errors_is
retry_once_example =
    retry_once plain_clients calling new_agent_registry (target "a") ("stale", no_headers)
      ("https://example.org", http_client_for_resolved (target "a")) stale 0
      (GoMap.lookup-insert "https://example.org" "https://example.org" ("stale", no_headers)
        GoMap.empty)
      fresh-target
