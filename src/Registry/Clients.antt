-- ===== src/Registry/Clients.antt =====
-- registry/client_resolver.go: the clients of the A2A SDK, one for each agent URL. Package a2aclient
-- is a parameter: what its constructors return for a card, a transport and the provider of headers.
-- A call is one step: the code looks up the URL once more when it has the write lock, which finds
-- what the first look found or what another call has stored meanwhile.
pub mod Cache
use a2a_gateway_mcp.Prelude.{
  ◌≡◌, Bool, true, false, ◌&&◌, Option, none, some, List, [], ◌∷◌, String, ◌==◌, if◌then◌else◌,
  nat_eq,
}
use a2a_gateway_mcp.GoMap
use a2a_gateway_mcp.GoMap.{GoMap}
use a2a_gateway_mcp.Errors.{Error, Result, ok, err}
use a2a_gateway_mcp.A2a.{
  AgentCard, AgentInterface, ProtocolBinding, jsonrpc, http_json, other_binding,
}
use a2a_gateway_mcp.Registry.Agents
use a2a_gateway_mcp.Registry.Agents.{AgentRegistry, RegisteredAgent}
use a2a_gateway_mcp.Registry.Http.{HeaderProvider, no_headers, live, static}
use a2a_gateway_mcp.Registry.Resolved.{ResolveResult}

pub data Transport : Type 0 where
  with_jsonrpc with_rest : Transport

pub record A2aClients : Type 1 where
  pub Client : Type 0
  -- a2aclient.NewFromCard
  pub new_from_card : AgentCard → Transport → HeaderProvider → Result Client
  -- a2aclient.NewFromEndpoints, with one JSON-RPC endpoint
  pub new_from_endpoint : String → HeaderProvider → Result Client

-- The card of an agent with that URL, the first by alias that has one.
unfoldable pub card_in : String → List RegisteredAgent → Option AgentCard
card_in url [] = none
card_in url (entry ∷ entries) =
    let rest = card_in url entries in
    if entry.url == url then (elim entry.card [ none ↦ rest | some card ↦ some card ]) else rest

unfoldable pub find_card : AgentRegistry → ResolveResult → Option AgentCard
unfolding card_in
find_card registry resolved = card_in resolved.url (Agents.list registry)

unfoldable pub http_client_for_resolved : ResolveResult → HeaderProvider
http_client_for_resolved resolved =
    if nat_eq (GoMap.size resolved.headers) 0
    then no_headers
    else if resolved.is_alias
    then live resolved.alias
    else static resolved.headers

abbrev pub transport_for : ProtocolBinding → Transport
transport_for jsonrpc = with_jsonrpc
transport_for http_json = with_rest
transport_for (other_binding b) = with_jsonrpc

module _ (S : A2aClients) where
  open S use {Client, new_from_card, new_from_endpoint}

  pub record ClientResolver : Type 0 where
    pub clients : GoMap Client

  unfoldable pub new_client_resolver : ClientResolver
  new_client_resolver = record { clients = GoMap.empty }

  -- The client of the card if that works, and the one of the URL otherwise.
  abbrev or_endpoint : Result Client → Result Client → Result Client
  or_endpoint (ok client) fallback = ok client
  or_endpoint (err e) fallback = fallback

  abbrev from_card :
      AgentCard → List AgentInterface → HeaderProvider → Result Client → Result Client
  from_card card [] provider fallback = fallback
  from_card card (i ∷ is) provider fallback =
      or_endpoint (new_from_card card (transport_for i.protocol_binding) provider) fallback

  unfoldable pub create_client : ResolveResult → Option AgentCard → HeaderProvider → Result Client
  create_client resolved none provider = new_from_endpoint resolved.url provider
  create_client resolved (some card) provider =
      from_card card card.supported_interfaces provider (new_from_endpoint resolved.url provider)

  abbrev store_client : String → Result Client → ClientResolver → Result Client × ClientResolver
  store_client url (err e) r = (err e, r)
  store_client url (ok client) r =
      (ok client, record { clients = GoMap.insert url client r.clients })

  unfoldable pub resolve :
      AgentRegistry → ResolveResult → ClientResolver → Result Client × ClientResolver
  unfolding find_card http_client_for_resolved create_client
  resolve registry resolved r = elim (GoMap.lookup resolved.url r.clients) [
    | some client ↦ (ok client, r)
    | none ↦
        let card = if resolved.is_alias then find_card registry resolved else none in
        store_client resolved.url (create_client resolved card (http_client_for_resolved resolved))
          r
  ]

  unfoldable pub evict : String → ClientResolver → ClientResolver
  evict url r = record { clients = GoMap.delete url r.clients }
