-- ===== src/Directory/Handler/Pages.antt =====
-- Paging through the directory: a client that follows the cursors.
use a2a_gateway_mcp.Prelude.{
  ℕ, zero, suc, ◌+◌, ◌-◌, ◌≤◌, ◌<◌, ◌≡◌, ◌≢◌, refl, ap, ◌∙◌, sym, false, Option, none, some, List,
  ◌++◌, String, ◌==◌, eq_iff, arith, if◌then◌else◌, ltb, length, take, drop, length-drop,
  take-append-drop, drop-drop, Bool-cases, inl, inr,
}
use a2a_gateway_mcp.Prelude.Int.{ℤ, pos}
use a2a_gateway_mcp.A2a.{AgentCard}
use a2a_gateway_mcp.Errors.{ok}
use a2a_gateway_mcp.Directory.Cursor.{
  Codec, encode_cursor, decode_cursor, encode_cursor-ne, decode-encode_cursor,
}
use a2a_gateway_mcp.Directory.Handler.{
  Directory, Request, Response, method_not_allowed, bad_request, internal_error, found, page,
  selected, cut, serve_http, serve_query, at_cursor, limited, answer_page,
}

-- A client's request for a page.
unfoldable pub request : String → String → String → Request
request query limit cursor = record {
  method = "GET";
  help = "";
  filter = query;
  limit = limit;
  cursor = cursor;
}

-- The client keeps the cards of a page and asks for the next one while there is a token.
unfoldable pub follow : Response → (String → Option (List AgentCard)) → Option (List AgentCard)
follow (found r) next =
    if r.next_token == ""
    then some r.cards
    else elim (next r.next_token) [ none ↦ none | some more ↦ some (r.cards ++ more) ]
follow method_not_allowed next = none
follow (bad_request message) next = none
follow internal_error next = none

module _ (c : Codec) (atoi : String → Option ℤ) (d : Directory) (query limit : String) where
  unfoldable pub collect : ℕ → String → Option (List AgentCard)
  unfolding follow request
  collect zero cursor = none
  collect (suc fuel) cursor =
      follow (serve_http c atoi d (request query limit cursor)) (collect fuel)

-- A directory that selects the same cards, in the same order, at each request with this query, and a
-- limit that reads as a positive number.
pub record IsStable (atoi : String → Option ℤ) (d : Directory) (query limit : String) (n : ℕ)
    (all : List AgentCard) : Type 0 where
  pub no_querier : d.querier ≡ none
  pub selects : selected d query ≡ ok all
  pub limit_given : limit ≢ ""
  pub limit_positive : atoi limit ≡ some (pos (suc n))

module _ (c : Codec) (atoi : String → Option ℤ) (d : Directory) (query limit : String) (n : ℕ)
    (all : List AgentCard) (s : IsStable atoi d query limit n all) where
  limit_ne : (limit == "") ≡ false
  limit_ne = elim (Bool-cases (limit == "")) [
    | inl e ↦ absurd (s.limit_given ((eq_iff limit "").0 e))
    | inr e ↦ e
  ]

  serve_page :
      (cursor : String) (offset : ℕ)
      → decode_cursor c cursor ≡ ok offset
      → serve_http c atoi d (request query limit cursor) ≡ cut c atoi offset (some (suc n)) all
  unfolding serve_http serve_query at_cursor limited answer_page request
  serve_page cursor offset e =
      rw (s.no_querier, serve_query)
        (rw e (rw (limit_ne, s.limit_positive, limited) (rw s.selects)))

  -- The page of an offset within the list.
  cut-page :
      (offset : ℕ)
      → offset ≤ length all
      → cut c atoi offset (some (suc n)) all ≡ (
          if ltb (suc n) (length (drop offset all))
          then page (take (suc n) (drop offset all)) (encode_cursor c (offset + suc n))
          else page (drop offset all) "")
  unfolding cut
  cut-page offset h = let e : ltb (length all) offset ≡ false = ground arith in rw e

  follow_more :
      (cards more : List AgentCard) (offset : ℕ) (next : String → Option (List AgentCard))
      → next (encode_cursor c offset) ≡ some more
      → follow (page cards (encode_cursor c offset)) next ≡ some (cards ++ more)
  unfolding follow
  follow_more cards more offset next e = rw (encode_cursor-ne c offset, e)

  collect_at :
      (fuel offset : ℕ) (cursor : String)
      → decode_cursor c cursor ≡ ok offset
      → offset ≤ length all
      → length all - offset < fuel
      → collect c atoi d query limit fuel cursor ≡ some (drop offset all)
  unfolding collect
  collect_at zero offset cursor e h m = absurd (omega arith)
  collect_at (suc fuel) offset cursor e h m =
      let rest = drop offset all in
      let next = offset + suc n in
      rw (serve_page cursor offset e, cut-page offset h)
        (elim (Bool-cases (ltb (suc n) (length rest))) [
          | inl q ↦
              let inside : suc n < length rest = ground arith in
              let later =
                collect_at fuel next (encode_cursor c next) (decode-encode_cursor c next)
                  (omega (arith, length-drop offset all)) (omega (arith, length-drop offset all)) in
              rw q (
                follow_more (take (suc n) rest) (drop next all) next
                  (collect c atoi d query limit fuel) later
                ∙ ap some (
                    ap (◌++◌ (take (suc n) rest)) (sym (drop-drop (suc n) offset all))
                    ∙ take-append-drop (suc n) rest))
          | inr q ↦ rw q (unfold follow in refl)
        ])

-- While a directory selects the same cards in the same order at each request, a client that starts
-- with no cursor and follows the tokens, with a positive limit, gets every card exactly once, in
-- order, in at most as many requests as there are cards, and one more.
pub collect_all :
    (c : Codec) (atoi : String → Option ℤ) (d : Directory) (query limit : String) (n : ℕ)
    (all : List AgentCard)
    → IsStable atoi d query limit n all
    → collect c atoi d query limit (suc (length all)) "" ≡ some all
collect_all c atoi d query limit n all s =
    collect_at c atoi d query limit n all s (suc (length all)) 0 "" (unfold decode_cursor in refl)
      (omega arith) (omega arith)
