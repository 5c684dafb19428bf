-- ===== src/Examples/Directory.antt =====
-- A directory of three cards, read two at a time.
use a2a_gateway_mcp.Prelude.Int.{ℤ, pos}
use a2a_gateway_mcp.Prelude.{
  ◌≢◌, ◌==◌, false, suc, ◌≡◌, ◌↔◌, ◌⊎◌, refl, true, Option, none, some, List, [], ◌∷◌, String,
  length,
}
use a2a_gateway_mcp.Errors.{ok}
use a2a_gateway_mcp.A2a.{AgentCard}
use a2a_gateway_mcp.Directory.Resolver.{matches_card, matches_card_iff, IsPart, Any}
use a2a_gateway_mcp.Directory.Handler.{Directory, selected}
use a2a_gateway_mcp.Directory.Handler.Pages.{IsStable, collect, collect_all}
use a2a_gateway_mcp.Tool.Discover.{Web}
use a2a_gateway_mcp.Tool.Discover.Paging.{discover_all, discover_every}
use a2a_gateway_mcp.Examples.Fixtures.{unary_codec, card_named, any_url}

abbrev three_cards : List AgentCard
three_cards = card_named "a" ∷ (card_named "b" ∷ (card_named "c" ∷ []))

abbrev fixed : Directory
fixed = record {
  list = ok three_cards;
  filterer = none;
  querier = none;
  registry_help = none;
  resolver_help = none;
  resolve = λ query cards. cards;
}

abbrev always_two : String → Option ℤ
always_two s = some (pos 2)

fixed-IsStable : IsStable always_two fixed "" "2" 1 three_cards
unfolding selected
fixed-IsStable = record {
  no_querier = refl;
  selects = refl;
  limit_given = λ e. cc e;
  limit_positive = refl;
}

collect_all_example :
    collect unary_codec always_two fixed "" "2" (suc (length three_cards)) "" ≡ some three_cards
collect_all_example = collect_all unary_codec always_two fixed "" "2" 1 three_cards fixed-IsStable

matches_card_iff_example : (matches_card (λ s. s) "eat" (card_named "weather") ≡ true) ↔ (
    IsPart "eat" "weather"
    ⊎ (IsPart "eat" "" ⊎ Any (λ tags. Any (λ tag. IsPart "eat" tag) tags) []))
matches_card_iff_example = matches_card_iff (λ s. s) "eat" (card_named "weather")

-- The tool asks with a limit of two and gets back what the directory found.
abbrev plain_web : Web
plain_web = record {
  parse = any_url;
  parse_error = λ url. none;
  request_error = λ request. none;
  Reply = String;
  do_request = λ request. ok "";
  is_timeout = λ e. false;
  read_all = λ reply. ok reply;
  is_json = λ body. false;
  unmarshal = λ body. none;
  marshal_help = λ help. ok "";
  equal_fold = λ s t. s == t;
  itoa = λ n. "2";
  body_text = λ response. "";
  decode = λ r. ok r;
}

two_given : ◌≢◌ {A = String} "2" ""
two_given e = cc e

discover_every_example :
    discover_all plain_web unary_codec always_two fixed "" 1 "" none
      (λ r. refl)
      two_given
      (suc (length three_cards))
      ""
    ≡ some three_cards
discover_every_example =
    discover_every plain_web unary_codec always_two fixed "" 1 "" none (λ r. refl) two_given
      three_cards fixed-IsStable
