-- ===== src/Registry/Clients/Cache.antt =====
-- What the cache of clients returns over several calls.
use a2a_gateway_mcp.Prelude.{
  All, List, [], ◌∷◌, ◌++◌, String, ◌==◌, ◌⊎◌, inl, inr, Bool-cases, nat_eq, true, ◌≡◌, ◌≢◌, refl,
  ap, ◌∙◌, none, some, eq_iff, eq_refl, arith, if◌then◌else◌,
}
use a2a_gateway_mcp.GoMap
use a2a_gateway_mcp.GoMap.{GoMap}
use a2a_gateway_mcp.Errors.{Result, ok}
use a2a_gateway_mcp.A2a.{
  AgentCard, AgentInterface, ProtocolBinding, jsonrpc, http_json, other_binding,
}
use a2a_gateway_mcp.Registry.Agents
use a2a_gateway_mcp.Registry.Agents.{AgentRegistry, RegisteredAgent}
use a2a_gateway_mcp.Registry.Http.{HeaderProvider, no_headers, live, static}
use a2a_gateway_mcp.Registry.Resolved.{ResolveResult}
use a2a_gateway_mcp.Registry.Clients.{
  from_card, or_endpoint, Transport, with_jsonrpc, with_rest, transport_for, card_in, A2aClients,
  ClientResolver, find_card, http_client_for_resolved, create_client, resolve, evict,
}

module _ (S : A2aClients) where
  open S use {Client}

  -- The client that is made for an agent on its own.
  abbrev pub fresh : AgentRegistry → ResolveResult → Result Client
  fresh registry resolved =
      create_client S resolved (if resolved.is_alias then find_card registry resolved else none)
        (http_client_for_resolved resolved)

  pub resolve_cached :
      (registry : AgentRegistry) (a : ResolveResult) (client : Client) (r : ClientResolver S)
      → GoMap.lookup a.url r.clients ≡ some client
      → resolve S registry a r ≡ (ok client, r)
  unfolding resolve
  resolve_cached registry a client r e = rw (e, resolve)

  pub stored_client :
      (registry : AgentRegistry) (a : ResolveResult) (client : Client) (r : ClientResolver S)
      → GoMap.lookup a.url r.clients ≡ none
      → fresh registry a ≡ ok client
      → resolve S registry a r
        ≡ (ok client, record { clients = GoMap.insert a.url client r.clients })
  unfolding resolve
  stored_client registry a client r e f = rw (e, resolve) (rw f)

  -- The agent has no card for that URL.
  abbrev pub Skips : String → RegisteredAgent → Type 0
  Skips url entry = (entry.url ≢ url) ⊎ (entry.card ≡ none)

  card_in-skip :
      (url : String) (before rest : List RegisteredAgent)
      → All (Skips url) before
      → card_in url (before ++ rest) ≡ card_in url rest
  unfolding card_in
  card_in-skip url [] rest s = refl
  card_in-skip url (entry ∷ before) rest s = elim (Bool-cases (entry.url == url)) [
    | inl q ↦ elim s.0 [
      | inl n ↦ absurd (n ((eq_iff entry.url url).0 q))
      | inr c ↦ rw (q, c) (card_in-skip url before rest s.1)
    ]
    | inr q ↦ rw q (card_in-skip url before rest s.1)
  ]

  card_in-found :
      (url : String) (entry : RegisteredAgent) (after : List RegisteredAgent) (card : AgentCard)
      → entry.url ≡ url
      → entry.card ≡ some card
      → card_in url (entry ∷ after) ≡ some card
  unfolding card_in
  card_in-found url entry after card u c = rw ((eq_iff entry.url url).1 u, c) refl

  -- HTTP with JSON is spoken to agents whose first interface asks for it, and JSON-RPC to all others.
  abbrev pub spoken : ProtocolBinding → Transport
  spoken http_json = with_rest
  spoken jsonrpc = with_jsonrpc
  spoken (other_binding b) = with_jsonrpc

  transport-spoken : (b : ProtocolBinding) → transport_for b ≡ spoken b
  transport-spoken http_json = refl
  transport-spoken jsonrpc = refl
  transport-spoken (other_binding b) = refl

  -- The headers of a registered agent are looked up at each request, if it had any.
  abbrev pub headers_for : ResolveResult → HeaderProvider
  headers_for a = if nat_eq (GoMap.size a.headers) 0 then no_headers else live a.alias

  create_client-card :
      (a : ResolveResult) (card : AgentCard) (face : AgentInterface) (faces : List AgentInterface)
      (provider : HeaderProvider) (client : Client)
      → card.supported_interfaces ≡ face ∷ faces
      → S.new_from_card card (spoken face.protocol_binding) provider ≡ ok client
      → create_client S a (some card) provider ≡ ok client
  unfolding create_client
  create_client-card a card face faces provider client shown made =
      let fallback = S.new_from_endpoint a.url provider in
      ap (λ is. from_card S card is provider fallback) shown
      ∙ ap (λ t. or_endpoint S (S.new_from_card card t provider) fallback)
          (transport-spoken face.protocol_binding)
      ∙ ap (λ made. or_endpoint S made fallback) made

  provider-headers :
      (a : ResolveResult) → a.is_alias ≡ true → http_client_for_resolved a ≡ headers_for a
  unfolding http_client_for_resolved
  provider-headers a alias =
      ap
        (λ t.
          if nat_eq (GoMap.size a.headers) 0
          then no_headers
          else if t
          then live a.alias
          else static a.headers)
        alias

  fresh-card :
      (registry : AgentRegistry) (a : ResolveResult) (card : AgentCard) (face : AgentInterface)
      (faces : List AgentInterface) (client : Client)
      → a.is_alias ≡ true
      → find_card registry a ≡ some card
      → card.supported_interfaces ≡ face ∷ faces
      → S.new_from_card card (spoken face.protocol_binding) (headers_for a) ≡ ok client
      → fresh registry a ≡ ok client
  fresh-card registry a card face faces client alias found shown made =
      let chosen : (if a.is_alias then find_card registry a else none) ≡ some card =
        ap (λ t. if t then find_card registry a else none) alias ∙ found in
      let provider = provider-headers a alias in
      (λ i. create_client S a (chosen i) (provider i))
      ∙ create_client-card a card face faces (headers_for a) client shown made

  -- Where no client is cached for its URL, an alias gets one made from the first card, in the order of
  -- the aliases, that a registered agent of that URL has, whoever that agent is, over the transport of
  -- the card's first interface and with the alias's own headers; and from then on every agent at that
  -- URL, whatever its alias, its card and its headers, gets that same client.
  pub resolve_shares :
      (registry later : AgentRegistry) (a b : ResolveResult) (r : ClientResolver S)
      (before after : List RegisteredAgent) (entry : RegisteredAgent) (card : AgentCard)
      (face : AgentInterface) (faces : List AgentInterface) (client : Client)
      → GoMap.lookup a.url r.clients ≡ none
      → a.is_alias ≡ true
      → Agents.list registry ≡ before ++ entry ∷ after
      → All (Skips a.url) before
      → entry.url ≡ a.url
      → entry.card ≡ some card
      → card.supported_interfaces ≡ face ∷ faces
      → S.new_from_card card (spoken face.protocol_binding) (headers_for a) ≡ ok client
      → b.url ≡ a.url
      → ((resolve S registry a r).0 ≡ ok client)
        × ((resolve S later b (resolve S registry a r).1).0 ≡ ok client)
  resolve_shares registry later a b r before after entry card face faces client e alias listed skips
        here has shown made u =
      let stored : ClientResolver S = record { clients = GoMap.insert a.url client r.clients } in
      let cached : GoMap.lookup b.url stored.clients ≡ some client =
        GoMap.lookup-insert a.url b.url client r.clients ∙ ground (arith, eq_iff a.url b.url) in
      let found : find_card registry a ≡ some card =
        unfold find_card in
        (ap (card_in a.url) listed
          ∙ card_in-skip a.url before (entry ∷ after) skips
          ∙ card_in-found a.url entry after card here has) in
      let f = fresh-card registry a card face faces client alias found shown made in
      rw (stored_client registry a client r e f)
        (refl, ap (λ p. p.0) (resolve_cached later b client stored cached))

  -- After an eviction an agent at that URL gets a client made anew, from the card and the headers that
  -- it has then; agents at other URLs keep theirs.
  pub resolve-evict :
      (registry : AgentRegistry) (a b : ResolveResult) (client : Client) (r : ClientResolver S)
      → fresh registry a ≡ ok client
      → b.url ≢ a.url
      → ((resolve S registry a (evict S a.url r)).0 ≡ ok client)
        × (GoMap.lookup b.url (evict S a.url r).clients ≡ GoMap.lookup b.url r.clients)
  resolve-evict registry a b client r f n =
      let evicted : ClientResolver S = record { clients = GoMap.delete a.url r.clients } in
      let gone : GoMap.lookup a.url evicted.clients ≡ none =
        GoMap.lookup-delete a.url a.url r.clients ∙ ground (arith, eq_refl a.url) in
      let kept : GoMap.lookup b.url evicted.clients ≡ GoMap.lookup b.url r.clients =
        GoMap.lookup-delete a.url b.url r.clients ∙ ground (arith, eq_iff a.url b.url) in
      unfold evict in (ap (λ p. p.0) (stored_client registry a client evicted gone f), kept)
