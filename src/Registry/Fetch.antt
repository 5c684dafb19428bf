-- ===== src/Registry/Fetch.antt =====
-- registry/fetch_agent_card.go, and internal/tool/tool_card.go: the card that an agent serves.
-- Packages net/http and encoding/json are parameters.
use Prim.Native.String.{◌++◌}
use a2a_gateway_mcp.Prelude.{ℕ, Option, none, some, List, [], ◌∷◌, String, if◌then◌else◌, nat_eq}
use a2a_gateway_mcp.Prelude.Int.{pos}
use a2a_gateway_mcp.Prelude.Text.{trim_right}
use a2a_gateway_mcp.GoMap
use a2a_gateway_mcp.GoMap.{GoMap}
use a2a_gateway_mcp.Errors.{Error, Result, ok, err, errorf, wrapf, number}
use a2a_gateway_mcp.Registry.Http.{HeaderProvider, no_headers, http_client_for_agent}

-- A card is read as C. A request is known by its URL, the headers that are set on it and the client.
pub record CardServer (C : Type 0) : Type 1 where
  pub Reply : Type 0
  pub request_error : String → Option Error
  pub do_request : HeaderProvider → String → List (String × String) → Result Reply
  pub status_code : Reply → ℕ
  pub read_all : Reply → Result String
  pub unmarshal : String → Result C

-- The URL of the card below that of the agent.
unfoldable pub agent_card_url : String → String
agent_card_url agent_url = trim_right b'/' agent_url ++ "/.well-known/agent-card.json"

module _ {C : Type 0} (N : CardServer C) where
  open N use {Reply, request_error, do_request, status_code, read_all, unmarshal}

  abbrev or_nil : Result C → Option C
  or_nil (ok card) = some card
  or_nil (err e) = none

  abbrev card_in : Result String → Option C
  card_in (err e) = none
  card_in (ok body) = or_nil (unmarshal body)

  abbrev card_of : Result Reply → Option C
  card_of (err e) = none
  card_of (ok reply) = if nat_eq (status_code reply) 200 then card_in (read_all reply) else none

  abbrev client_for : GoMap String → HeaderProvider
  client_for headers =
      if nat_eq (GoMap.size headers) 0 then no_headers else http_client_for_agent headers

  unfoldable pub fetch_agent_card : String → GoMap String → Option C
  unfolding agent_card_url http_client_for_agent
  fetch_agent_card agent_url headers = elim (request_error (agent_card_url agent_url)) [
    | some e ↦ none
    | none ↦ card_of (do_request (client_for headers) (agent_card_url agent_url) [])
  ]

  abbrev parsed : Result C → Result C
  parsed (ok card) = ok card
  parsed (err e) = err (wrapf "failed to parse agent card JSON: %w" [] e)

  abbrev of_body : Result String → Result C
  of_body (err e) = err (wrapf "failed to read response body: %w" [] e)
  of_body (ok body) = parsed (unmarshal body)

  abbrev of_reply : Result Reply → Result C
  of_reply (err e) = err (wrapf "agent unreachable: %w" [] e)
  of_reply (ok reply) =
      if nat_eq (status_code reply) 200
      then of_body (read_all reply)
      else err (errorf "agent returned non-200 status: %d" (number (pos (status_code reply)) ∷ []))

  -- The exchange of GetAgentCardTool, with the headers to set.
  unfoldable pub request_card : String → List (String × String) → Result C
  unfolding agent_card_url
  request_card agent_url headers = elim (request_error (agent_card_url agent_url)) [
    | some e ↦ err (wrapf "failed to create request: %w" [] e)
    | none ↦ of_reply (do_request no_headers (agent_card_url agent_url) headers)
  ]
