-- ===== src/Tool/Send/Carried.antt =====
-- From the caller card that create_caller_card sets to the metadata of a message.
use a2a_gateway_mcp.Prelude.{
  inr, sym, inl, nat_eq, Bool-cases, ◌≡◌, ◌≢◌, refl, ap, ◌∙◌, ℕ, none, some, String, ◌==◌,
  if◌then◌else◌,
}
use a2a_gateway_mcp.Errors.{ok}
use a2a_gateway_mcp.GoMap
use a2a_gateway_mcp.Registry.CallerCards
use a2a_gateway_mcp.Registry.CallerCards.{
  Metadata, caller_card, default_caller_card_key, inject_caller_card, value_at, or_else, inject-set,
}
use a2a_gateway_mcp.Tool.Overview.{CreateCallerCardInput, card_of, create_caller_card}
use a2a_gateway_mcp.Tool.Reading.Effects.{unnamed}
use a2a_gateway_mcp.Tool.Send.{
  Environment, SendMessageInput, SendRequest, Stores, given_metadata, build_send_request,
}
use a2a_gateway_mcp.Tool.Send.Composition.{build-request}

-- The key under which a card is sent.
abbrev pub key_of : CreateCallerCardInput → String
key_of card = if card.metadata_key == "" then default_caller_card_key else card.metadata_key

create-set :
    (trim_space : String → String) (card : CreateCallerCardInput) (s : CallerCards.CallerCardStore)
    → trim_space card.name ≢ ""
    → (create_caller_card trim_space card s).1 ≡ CallerCards.set (card_of card) card.metadata_key s
unfolding create_caller_card
create-set trim_space card s named = rw (unnamed (trim_space card.name) named) refl

value_at-given : (k : String) (m : Metadata) → value_at k (given_metadata m) ≡ value_at k m
value_at-given k none = refl
value_at-given k (some m) = elim (Bool-cases (nat_eq (GoMap.size m) 0)) [
  | inl q ↦ rw q (sym (GoMap.lookup-none k m q))
  | inr q ↦ rw q refl
]

module _ (E : Environment) where
  -- The stores after create_caller_card.
  abbrev pub after_card : (String → String) → CreateCallerCardInput → Stores E → Stores E
  after_card trim_space card s = record s {
    caller_cards = (create_caller_card trim_space card s.caller_cards).1;
  }

  -- Once create_caller_card has accepted a card, every request that is built carries under its key, or
  -- under the default one for the empty key, the message's own value if it has one there and the card
  -- otherwise; under other keys it carries the message's own values.
  pub create-build :
      (trim_space : String → String) (card : CreateCallerCardInput) (now : ℕ)
      (input : SendMessageInput) (k : String) (s : Stores E) (sr : SendRequest E)
      → trim_space card.name ≢ ""
      → (build_send_request E now input (after_card trim_space card s)).0 ≡ ok sr
      → value_at k sr.request.metadata ≡ (
          if key_of card == k
          then some (or_else (value_at k input.metadata) (caller_card (card_of card)))
          else value_at k input.metadata)
  create-build trim_space card now input k s sr named built =
      let carried = (build-request E now input (after_card trim_space card s) sr built).6 in
      let own = given_metadata input.metadata in
      ap (value_at k) carried
      ∙ ap (λ cards. value_at k (inject_caller_card cards own))
          (create-set trim_space card s.caller_cards named)
      ∙ inject-set (card_of card) card.metadata_key k s.caller_cards own
      ∙ ap (λ o. if key_of card == k then some (or_else o (caller_card (card_of card))) else o)
          (value_at-given k input.metadata)
