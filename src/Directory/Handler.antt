-- ===== src/Directory/Handler.antt =====
-- directory/handler.go and directory/directory.go: the HTTP handler of the directory. The registry
-- and the filter that the operator plugs in are a record of what they answer, the optional
-- interfaces as options. strconv.Atoi is a parameter. A request only reads, so it has no state.
pub mod Pages
use a2a_gateway_mcp.Prelude.{
  ℕ, zero, suc, ◌+◌, ◌≡◌, Bool, true, false, not, ◌&&◌, Option, none, some, List, [], ◌∷◌, String,
  ◌==◌, if◌then◌else◌, ltb, leb, nat_eq, length, take, drop,
}
use a2a_gateway_mcp.Prelude.Int.{ℤ, pos, negsuc}
use a2a_gateway_mcp.Errors.{
  Error, Result, ok, err, errors_is, invalid_cursor as target_invalid_cursor,
}
use a2a_gateway_mcp.A2a.{AgentCard}
use a2a_gateway_mcp.Directory.Cursor.{Codec, encode_cursor, decode_cursor}

pub record FilterExample : Type 0 where
  pub filter : String
  pub description : String

pub record FilterHelpResponse : Type 0 where
  pub description : String
  pub syntax : String
  pub examples : List FilterExample
  pub filterable_fields : List String

abbrev pub default_filter_help : FilterHelpResponse
default_filter_help = record {
  description = "Filters agent cards using case-insensitive substring matching.";
  syntax =
      "Pass a plain text string as the filter parameter. Cards whose name, description, or skill tags contain the string (case-insensitive) are returned.";
  examples =
      record { filter = "weather"; description = "Agents related to weather" }
      ∷ (record { filter = "code review"; description = "Agents that handle code review" } ∷ []);
  filterable_fields = [];
}

-- A directory: the answers of its registry and its resolver. An optional interface that is not
-- implemented is `none`.
pub record Directory : Type 0 where
  -- Registry.List
  pub list : Result (List AgentCard)
  -- Filterer.Filter
  pub filterer : Option (String → Result (List AgentCard))
  -- Querier.Query: the cards, nil being the empty list, and the next cursor
  pub querier : Option (String → ℤ → String → Result (List AgentCard × String))
  -- FilterHelper.FilterHelp of the registry and of the resolver
  pub registry_help : Option FilterHelpResponse
  pub resolver_help : Option FilterHelpResponse
  -- FilterResolver.Resolve
  pub resolve : String → List AgentCard → List AgentCard

-- The method, and the query parameters that are read: "" for a missing one.
pub record Request : Type 0 where
  pub method : String
  pub help : String
  pub filter : String
  pub limit : String
  pub cursor : String

pub record QueryResult : Type 0 where
  pub cards : List AgentCard
  pub next_token : String
  pub help_resp : Option FilterHelpResponse

-- What writeJSON sends. A refused method also gets the header `Allow: GET`.
pub data Response : Type 0 where
  method_not_allowed : Response
  bad_request : String → Response
  internal_error : Response
  found : QueryResult → Response

abbrev bad_limit : Response
bad_limit = bad_request "limit must be a positive integer"

abbrev bad_cursor : Response
bad_cursor = bad_request "invalid cursor"

abbrev pub page : List AgentCard → String → Response
page cards token = found (record { cards = cards; next_token = token; help_resp = none })

help_for : Option FilterHelpResponse → Option FilterHelpResponse → FilterHelpResponse
help_for (some h) r = h
help_for none (some h) = h
help_for none none = default_filter_help

-- The answer of a Querier.
queried : Result (List AgentCard × String) → Response
queried (ok (cards, next)) = page cards next
queried (err e) = if errors_is target_invalid_cursor e then bad_cursor else internal_error

-- The limit of the Querier path: missing is 0.
query_with :
    (String → ℤ → String → Result (List AgentCard × String)) → Request → Option ℤ → Response
unfolding queried
query_with query r none = bad_limit
query_with query r (some limit) = queried (query r.filter limit r.cursor)

-- The cards that the filter selects, if there is one.
unfoldable pub selected : Directory → String → Result (List AgentCard)
selected d query =
    if not (query == "")
    then elim d.filterer [
      | some filter ↦ filter query
      | none ↦ elim d.list [ ok cards ↦ ok (d.resolve query cards) | err e ↦ err e ]
    ]
    else d.list

module _ (c : Codec) (atoi : String → Option ℤ) where
  -- The page at an offset; no limit is `none`.
  unfoldable pub cut : ℕ → Option ℕ → List AgentCard → Response
  cut offset limit cards =
      let start = if ltb (length cards) offset then length cards else offset in
      let rest = drop start cards in
      elim limit [
        | none ↦ page rest ""
        | some n ↦
            if ltb n (length rest)
            then page (take n rest) (encode_cursor c (start + n))
            else page rest ""
      ]

  answer_page : ℕ → Option ℕ → Result (List AgentCard) → Response
  unfolding cut
  answer_page offset limit (err e) = internal_error
  answer_page offset limit (ok cards) = cut offset limit cards

  -- A limit that is given is a positive number.
  abbrev positive : Option ℤ → Option ℕ
  positive none = none
  positive (some (pos zero)) = none
  positive (some (pos (suc n))) = some (suc n)
  positive (some (negsuc n)) = none

  limited : Directory → Request → ℕ → Response
  unfolding answer_page selected
  limited d r offset =
      if not (r.limit == "")
      then elim (positive (atoi r.limit)) [
        | none ↦ bad_limit
        | some n ↦ answer_page offset (some n) (selected d r.filter)
      ]
      else answer_page offset none (selected d r.filter)

  at_cursor : Directory → Request → Result ℕ → Response
  unfolding limited
  at_cursor d r (err e) = bad_cursor
  at_cursor d r (ok offset) = limited d r offset

  serve_query : Directory → Request → Response
  unfolding at_cursor query_with
  serve_query d r = elim d.querier [
    | some query ↦ query_with query r (if not (r.limit == "") then atoi r.limit else some (pos 0))
    | none ↦ at_cursor d r (decode_cursor c r.cursor)
  ]

  unfoldable pub serve_http : Directory → Request → Response
  unfolding serve_query help_for
  serve_http d r =
      if not (r.method == "GET")
      then method_not_allowed
      else if r.help == "true"
      then found (record {
        cards = [];
        next_token = "";
        help_resp = some (help_for d.registry_help d.resolver_help);
      })
      else serve_query d r
