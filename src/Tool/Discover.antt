-- ===== src/Tool/Discover.antt =====
-- internal/tool/tool_discover.go: discover_agents, and the adapter of gateway/tools.go that asks the
-- self-hosted directory. Packages net/http, net/url and encoding/json are parameters: what they
-- return for a URL, its query, the headers and a body. The adapter's JSON is decoded again from what
-- the directory wrote, which `decode` stands for.
pub mod Paging
use a2a_gateway_mcp.Prelude.{
  ℕ, Bool, true, false, not, ◌&&◌, Option, none, some, List, [], ◌∷◌, ◌++◌, String, ◌==◌,
  if◌then◌else◌, keep_if, ltb,
}
use a2a_gateway_mcp.Prelude.Int.{ℤ, pos, negsuc, is_le_zero}
use a2a_gateway_mcp.GoMap
use a2a_gateway_mcp.GoMap.{GoMap}
use a2a_gateway_mcp.Errors.{Error, Result, ok, err, errorf, wrapf, text}
use a2a_gateway_mcp.A2a.{AgentCard}
use a2a_gateway_mcp.Directory.Cursor.{Codec}
use a2a_gateway_mcp.Directory.Handler.{
  Directory, Request, QueryResult, FilterHelpResponse, Response, method_not_allowed, bad_request,
  internal_error, found, serve_http,
}
use a2a_gateway_mcp.Registry.Http.{is_protocol_header}
use a2a_gateway_mcp.Validate.{ParsedUrl, validate_headers, validate_url}

pub record DiscoverAgentsInput : Type 0 where
  pub directory_url : String
  pub filter : String
  pub limit : Option ℤ
  pub cursor : String
  pub headers : GoMap String
  pub help : Bool

-- The agents that were found, or the text of a help response.
pub data DiscoverAgentsOutput : Type 0 where
  agents : List AgentCard → String → DiscoverAgentsOutput
  help_text : String → DiscoverAgentsOutput

-- A request to a directory over HTTP: the query is added to that of the URL, the headers are set.
pub record HttpRequest : Type 0 where
  pub url : String
  pub query : List (String × String)
  pub headers : List (String × String)

pub record Web : Type 1 where
  -- url.Parse as far as validate.URL looks at it, and its error
  pub parse : String → ParsedUrl
  pub parse_error : String → Option Error
  -- NewRequestWithContext
  pub request_error : HttpRequest → Option Error
  pub Reply : Type 0
  -- HTTPClient.Do, and whether the error's text says that the deadline is exceeded
  pub do_request : HttpRequest → Result Reply
  pub is_timeout : Error → Bool
  -- io.ReadAll, json.Valid, json.Unmarshal of cards and token, json.Marshal of a help response
  pub read_all : Reply → Result String
  pub is_json : String → Bool
  pub unmarshal : String → Option (List AgentCard × String)
  pub marshal_help : FilterHelpResponse → Result String
  pub equal_fold : String → String → Bool
  -- strconv.Itoa, which is the format %d too
  pub itoa : ℤ → String
  -- the body of a response that is not 200, and the decoding of one that is
  pub body_text : Response → String
  pub decode : QueryResult → Result QueryResult

abbrev pub when_given : String → String → List (String × String) → List (String × String)
when_given key value rest = if value == "" then rest else (key, value) ∷ rest

module _ (W : Web) where
  open W use {
    parse, parse_error, request_error, Reply, do_request, is_timeout, read_all, is_json, unmarshal,
    marshal_help, equal_fold, itoa, body_text, decode,
  }

  abbrev limit_query : Option ℤ → List (String × String) → List (String × String)
  limit_query none rest = rest
  limit_query (some n) rest = ("limit", itoa n) ∷ rest

  unfoldable pub query_of : DiscoverAgentsInput → List (String × String)
  query_of input =
      if input.help
      then ("help", "true") ∷ []
      else when_given "filter" input.filter
          (limit_query input.limit (when_given "cursor" input.cursor []))

  abbrev own_headers : DiscoverAgentsInput → List (String × String)
  own_headers input =
      keep_if (λ h. not (is_protocol_header equal_fold h.0)) (GoMap.entries input.headers)

  unfoldable pub request_for : DiscoverAgentsInput → String → HttpRequest
  unfolding query_of
  request_for input url = record {
    url = url;
    query = query_of input;
    headers = ("Accept", "application/json") ∷ own_headers input;
  }

  abbrev parsed_body : Option (List AgentCard × String) → Result DiscoverAgentsOutput
  parsed_body none = err (errorf "directory response is not a valid query result" [])
  parsed_body (some (cards, token)) = ok (agents cards token)

  abbrev of_body : Bool → Result String → Result DiscoverAgentsOutput
  of_body help (err e) = err (wrapf "failed to read directory response: %w" [] e)
  of_body help (ok body) =
      if not (is_json body)
      then err (errorf "directory response is not valid JSON" [])
      else if help
      then ok (help_text body)
      else parsed_body (unmarshal body)

  abbrev of_reply : Bool → Result Reply → Result DiscoverAgentsOutput
  of_reply help (ok reply) = of_body help (read_all reply)
  of_reply help (err e) =
      if is_timeout e
      then err (errorf "directory is unreachable: request timed out" [])
      else err (wrapf "directory is unreachable: %w" [] e)

  unfoldable pub handle_http : DiscoverAgentsInput → String → Result DiscoverAgentsOutput
  unfolding request_for
  handle_http input directory_url = elim (parse_error directory_url) [
    | some e ↦ err (wrapf "invalid directory URL: %w" [] e)
    | none ↦
        let request = request_for input directory_url in
        elim (request_error request) [
          | some e ↦ err (wrapf "failed to create request: %w" [] e)
          | none ↦ of_reply input.help (do_request request)
        ]
  ]

  module _ (c : Codec) (atoi : String → Option ℤ) where
    -- The request that the adapter makes up.
    abbrev pub synthetic : String → ℤ → String → Bool → Request
    synthetic filter limit cursor help =
        if help
        then record { method = "GET"; help = "true"; filter = ""; limit = ""; cursor = "" }
        else record {
          method = "GET";
          help = "";
          filter = filter;
          limit = if is_le_zero limit then "" else itoa limit;
          cursor = cursor;
        }

    abbrev query_failed : Response → Error
    query_failed response = errorf "directory query failed: %s" (text (body_text response) ∷ [])

    abbrev decoded : Result QueryResult → Result QueryResult
    decoded (ok r) = ok r
    decoded (err e) = err (wrapf "failed to parse directory response: %w" [] e)

    abbrev pub of_response : Response → Result QueryResult
    of_response (found r) = decoded (decode r)
    of_response method_not_allowed = err (query_failed method_not_allowed)
    of_response (bad_request m) = err (query_failed (bad_request m))
    of_response internal_error = err (query_failed internal_error)

    -- directoryAdapter.Query
    unfoldable pub query : Directory → String → ℤ → String → Bool → Result QueryResult
    unfolding serve_http
    query d filter limit cursor help =
        of_response (serve_http c atoi d (synthetic filter limit cursor help))

    abbrev marshalled : Result String → Result DiscoverAgentsOutput
    marshalled (ok body) = ok (help_text body)
    marshalled (err e) = err (wrapf "failed to marshal help response: %w" [] e)

    abbrev pub in_process : Bool → Result QueryResult → Result DiscoverAgentsOutput
    in_process help (err e) = err (wrapf "directory query failed: %w" [] e)
    in_process true (ok r) = elim r.help_resp [
      | some help ↦ marshalled (marshal_help help)
      | none ↦ ok (agents r.cards r.next_token)
    ]
    in_process false (ok r) = ok (agents r.cards r.next_token)

    abbrev pub limit_or_zero : Option ℤ → ℤ
    limit_or_zero none = pos 0
    limit_or_zero (some n) = n

    unfoldable pub handle_in_process : Directory → DiscoverAgentsInput → Result DiscoverAgentsOutput
    unfolding query
    handle_in_process d input =
        in_process input.help
          (query d input.filter (limit_or_zero input.limit) input.cursor input.help)

    abbrev pub too_small : Option ℤ → Bool
    too_small none = false
    too_small (some n) = is_le_zero n

    abbrev no_source : Error
    no_source =
        errorf
          "directory URL is required: no explicit URL, self-hosted directory, or default URL configured"
          []

    -- The default URL of the server.
    abbrev pub by_default :
        String → Option Error → DiscoverAgentsInput → Result DiscoverAgentsOutput
    by_default url (some e) input = err e
    by_default url none input = handle_http input url

    abbrev pub by_url : Option Error → DiscoverAgentsInput → Result DiscoverAgentsOutput
    by_url (some e) input = err e
    by_url none input = handle_http input input.directory_url

    -- The sources in the order of their priority.
    abbrev pub from_source :
        Option Directory → String → Option Error → DiscoverAgentsInput → Result DiscoverAgentsOutput
    from_source directory default_url default_error input =
        if not (input.directory_url == "")
        then by_url (validate_url parse input.directory_url) input
        else elim directory [
          | some d ↦ handle_in_process d input
          | none ↦
              if not (default_url == "")
              then by_default default_url default_error input
              else err no_source
        ]

    unfoldable pub handle :
        Option Directory → String → Option Error → DiscoverAgentsInput → Result DiscoverAgentsOutput
    unfolding handle_http handle_in_process validate_headers
    handle directory default_url default_error input =
        if too_small input.limit
        then err (errorf "limit must be a positive integer (>= 1)" [])
        else elim (validate_headers input.headers) [
          | some e ↦ err e
          | none ↦ from_source directory default_url default_error input
        ]
