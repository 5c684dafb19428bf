-- ===== src/Registry/Http.antt =====
-- registry/http.go: the headers that the gateway adds to a request. The transport is known by where
-- its headers come from; the comparison of header names without case is a parameter, as is the
-- setting of one header of a request.
use a2a_gateway_mcp.Prelude.{
  All, refl, ap, ◌∙◌, ◌++◌, arith, ◌≡◌, Bool, false, ◌||◌, Option, none, some, List, [], ◌∷◌,
  String, if◌then◌else◌, nat_eq, Bool-cases, inl, inr,
}
use a2a_gateway_mcp.GoMap
use a2a_gateway_mcp.GoMap.{GoMap}
use a2a_gateway_mcp.Registry.Agents
use a2a_gateway_mcp.Registry.Agents.{AgentRegistry, RegisteredAgent}

-- Where the headers of an HTTP client come from: nowhere, the registry at the time of each request,
-- or a fixed map.
pub data HeaderProvider : Type 0 where
  no_headers : HeaderProvider
  live : String → HeaderProvider
  static : GoMap String → HeaderProvider

abbrev headers_of : Option RegisteredAgent → GoMap String
headers_of none = GoMap.empty
headers_of (some entry) = entry.headers

-- What the provider returns when a request is sent, with the registry as it is then.
unfoldable pub provided : HeaderProvider → AgentRegistry → GoMap String
provided no_headers r = GoMap.empty
provided (live alias) r = headers_of (Agents.lookup alias r)
provided (static headers) r = headers

-- HTTPClientForAgent, for the headers of an entry
unfoldable pub http_client_for_agent : GoMap String → HeaderProvider
http_client_for_agent headers = if nat_eq (GoMap.size headers) 0 then no_headers else static headers

module _ (equal_fold : String → String → Bool) where
  unfoldable pub is_protocol_header : String → Bool
  is_protocol_header name = equal_fold name "Content-Type" || equal_fold name "Accept"

  -- The loop of RoundTrip over the provided headers, on the headers of the cloned request.
  unfoldable pub set_headers {ℓ} :
      {H : Type ℓ} → (String → String → H → H) → List (String × String) → H → H
  set_headers set_header [] h = h
  set_headers set_header ((k, v) ∷ kvs) h =
      set_headers set_header kvs (if is_protocol_header k then h else set_header k v h)

  unfoldable pub round_trip {ℓ} :
      {H : Type ℓ} → (String → String → H → H) → HeaderProvider → AgentRegistry → H → H
  unfolding set_headers provided
  round_trip set_header provider r h =
      set_headers set_header (GoMap.entries (provided provider r)) h

-- The headers of a request as net/http keeps them: a header that is set is the one that is read under
-- its name, and headers whose names differ by more than case stay.
pub record Headers : Type 1 where
  pub H : Type 0
  pub equal_fold : String → String → Bool
  pub header : String → H → Option String
  pub set_header : String → String → H → H
  pub header-set : (k v : String) (h : H) → header k (set_header k v h) ≡ some v
  pub header-other :
      (k j v : String) (h : H) → equal_fold k j ≡ false → header j (set_header k v h) ≡ header j h

module _ (N : Headers) where
  open N use {H, equal_fold, header, set_header, header-set, header-other}

  -- No header of the list is of that name.
  abbrev pub Lacks : String → List (String × String) → Type 0
  Lacks j kvs = All (λ kv. equal_fold kv.0 j ≡ false) kvs

  set_headers_other :
      (j : String) (kvs : List (String × String)) (h : H)
      → Lacks j kvs
      → header j (set_headers equal_fold set_header kvs h) ≡ header j h
  unfolding set_headers
  set_headers_other j [] h lacks = refl
  set_headers_other j ((k, v) ∷ kvs) h lacks = elim (Bool-cases (is_protocol_header equal_fold k)) [
    | inl e ↦ rw e (set_headers_other j kvs h lacks.1)
    | inr e ↦
        rw e (set_headers_other j kvs (set_header k v h) lacks.1 ∙ header-other k j v h lacks.0)
  ]

  -- A header of the protocol is skipped, under any spelling.
  set_headers_reserved :
      (j : String) (kvs : List (String × String)) (h : H)
      → ((k : String) → is_protocol_header equal_fold k ≡ false → equal_fold k j ≡ false)
      → header j (set_headers equal_fold set_header kvs h) ≡ header j h
  unfolding set_headers
  set_headers_reserved j [] h reserved = refl
  set_headers_reserved j ((k, v) ∷ kvs) h reserved =
      elim (Bool-cases (is_protocol_header equal_fold k)) [
        | inl e ↦ rw e (set_headers_reserved j kvs h reserved)
        | inr e ↦ rw e (
            set_headers_reserved j kvs (set_header k v h) reserved
            ∙ header-other k j v h (reserved k e))
      ]

  set_headers_given :
      (j v : String) (before after : List (String × String)) (h : H)
      → is_protocol_header equal_fold j ≡ false
      → Lacks j after
      → header j (set_headers equal_fold set_header (before ++ (j, v) ∷ after) h) ≡ some v
  unfolding set_headers
  set_headers_given j v [] after h free lacks =
      ap
        (λ b.
          header j (set_headers equal_fold set_header after (if b then h else set_header j v h)))
        free
      ∙ set_headers_other j after (set_header j v h) lacks
      ∙ header-set j v h
  set_headers_given j v ((k, w) ∷ before) after h free lacks =
      set_headers_given j v before after
        (if is_protocol_header equal_fold k then h else set_header k w h) free lacks

  unreserved-content_type :
      (k : String) → is_protocol_header equal_fold k ≡ false → equal_fold k "Content-Type" ≡ false
  unfolding is_protocol_header
  unreserved-content_type k e = ground arith

  unreserved-accept :
      (k : String) → is_protocol_header equal_fold k ≡ false → equal_fold k "Accept" ≡ false
  unfolding is_protocol_header
  unreserved-accept k e = ground arith

  -- Whatever headers an agent has, a request goes out with its own `Content-Type` and `Accept`; a header
  -- of the agent that is neither of them is sent with its value, unless one that follows in the order
  -- of the loop has its name too; and headers that the agent does not give are the request's own.
  pub round_trip_keeps :
      (provider : HeaderProvider) (r : AgentRegistry) (h : H) (j v absent : String)
      (before after : List (String × String))
      → GoMap.entries (provided provider r) ≡ before ++ (j, v) ∷ after
      → equal_fold j "Content-Type" ≡ false
      → equal_fold j "Accept" ≡ false
      → Lacks j after
      → Lacks absent (GoMap.entries (provided provider r))
      → let sent = round_trip equal_fold set_header provider r h in
        (header "Content-Type" sent ≡ header "Content-Type" h)
        × (header "Accept" sent ≡ header "Accept" h)
        × (header j sent ≡ some v)
        × (header absent sent ≡ header absent h)
  unfolding round_trip is_protocol_header
  round_trip_keeps provider r h j v absent before after listed no_type no_accept last lacks =
      let free : is_protocol_header equal_fold j ≡ false = rw (no_type, no_accept) refl in
      (
        set_headers_reserved "Content-Type" (GoMap.entries (provided provider r)) h
            unreserved-content_type,
        set_headers_reserved "Accept" (GoMap.entries (provided provider r)) h unreserved-accept,
        ap (λ kvs. header j (set_headers equal_fold set_header kvs h)) listed
            ∙ set_headers_given j v before after h free last,
        set_headers_other absent (GoMap.entries (provided provider r)) h lacks,
      )
