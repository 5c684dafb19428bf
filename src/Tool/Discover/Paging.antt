-- ===== src/Tool/Discover/Paging.antt =====
-- A client that discovers the agents of the self-hosted directory page by page.
use a2a_gateway_mcp.Prelude.{
  ℕ, zero, suc, ◌≡◌, ◌≢◌, refl, ap, ◌∙◌, false, Option, none, some, List, arith, ◌++◌, String, ◌==◌,
  if◌then◌else◌, length,
}
use a2a_gateway_mcp.Prelude.Int.{ℤ, pos, is_le_zero}
use a2a_gateway_mcp.GoMap
use a2a_gateway_mcp.Errors.{Error, Result, ok, err}
use a2a_gateway_mcp.A2a.{AgentCard}
use a2a_gateway_mcp.Directory.Cursor.{Codec}
use a2a_gateway_mcp.Directory.Handler.{
  Directory, QueryResult, Response, method_not_allowed, bad_request, internal_error, found,
  serve_http,
}
use a2a_gateway_mcp.Directory.Handler.Pages.{request, follow, collect, IsStable, collect_all}
use a2a_gateway_mcp.Tool.Discover.{
  DiscoverAgentsInput, DiscoverAgentsOutput, agents, help_text, Web, in_process, of_response, query,
  handle_in_process, handle,
}
use a2a_gateway_mcp.Validate.{validate_headers}

-- What a client asks for, with no URL and no headers of its own.
abbrev pub page_input : String → ℕ → String → DiscoverAgentsInput
page_input filter n cursor = record {
  directory_url = "";
  filter = filter;
  limit = some (pos (suc n));
  cursor = cursor;
  headers = GoMap.empty;
  help = false;
}

-- The agents of an answer, and those of the pages after it.
abbrev pub and_more :
    Result DiscoverAgentsOutput → (String → Option (List AgentCard)) → Option (List AgentCard)
and_more (err e) next = none
and_more (ok (help_text s)) next = none
and_more (ok (agents cards token)) next =
    if token == ""
    then some cards
    else elim (next token) [ none ↦ none | some more ↦ some (cards ++ more) ]

positive : (n : ℕ) → is_le_zero (pos (suc n)) ≡ false
positive n = ground arith

module _ (W : Web) (c : Codec) (atoi : String → Option ℤ) (d : Directory) (filter : String) (n : ℕ)
    (default_url : String) (default_error : Option Error)
    (decodes : (r : QueryResult) → W.decode r ≡ ok r) (given : W.itoa (pos (suc n)) ≢ "") where
  -- The calls of the tool, one for each page.
  unfoldable pub discover_all : ℕ → String → Option (List AgentCard)
  unfolding handle
  discover_all zero cursor = none
  discover_all (suc fuel) cursor =
      and_more (handle W c atoi (some d) default_url default_error (page_input filter n cursor))
        (discover_all fuel)

  and_more-follow :
      (r : Response) (next : String → Option (List AgentCard))
      → and_more (in_process W c atoi false (of_response W c atoi r)) next ≡ follow r next
  unfolding follow
  and_more-follow (found r) next = rw (decodes r) refl
  and_more-follow method_not_allowed next = refl
  and_more-follow (bad_request m) next = refl
  and_more-follow internal_error next = refl

  handle-page :
      (cursor : String)
      → handle W c atoi (some d) default_url default_error (page_input filter n cursor)
        ≡ in_process W c atoi false (
            of_response W c atoi
              (serve_http c atoi d (request filter (W.itoa (pos (suc n))) cursor)))
  unfolding handle validate_headers handle_in_process query request GoMap.size GoMap.empty
  handle-page cursor = rw (positive n) refl

  discover-collect :
      (fuel : ℕ) (cursor : String)
      → discover_all fuel cursor ≡ collect c atoi d filter (W.itoa (pos (suc n))) fuel cursor
  unfolding discover_all collect
  discover-collect zero cursor = refl
  discover-collect (suc fuel) cursor =
      ap (λ out. and_more out (discover_all fuel)) (handle-page cursor)
      ∙ and_more-follow (serve_http c atoi d (request filter (W.itoa (pos (suc n))) cursor))
          (discover_all fuel)
      ∙ ap (follow (serve_http c atoi d (request filter (W.itoa (pos (suc n))) cursor)))
          (λ i k. discover-collect fuel k i)

  -- While the self-hosted directory selects the same cards in the same order, calls of discover_agents
  -- with a limit of at least one, each with the token of the one before, find every agent that the
  -- filter selects exactly once, in order, in at most one call more than there are agents.
  pub discover_every :
      (all : List AgentCard)
      → IsStable atoi d filter (W.itoa (pos (suc n))) n all
      → discover_all (suc (length all)) "" ≡ some all
  discover_every all stable =
      discover-collect (suc (length all)) ""
      ∙ collect_all c atoi d filter (W.itoa (pos (suc n))) n all stable
