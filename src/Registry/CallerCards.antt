-- ===== src/Registry/CallerCards.antt =====
-- registry/caller_card.go and registry/caller_card_store.go: the card of the caller, and how it gets
-- into the metadata of an outbound message. A metadata value is a JSON value or the card.
use a2a_gateway_mcp.Prelude.{
  ◌∙◌, ◌≡◌, refl, Bool, true, false, Option, none, some, List, String, ◌==◌, eq_iff, arith,
  if◌then◌else◌, is_some, Bool-cases, inl, inr,
}
use a2a_gateway_mcp.GoMap
use a2a_gateway_mcp.GoMap.{GoMap}
use a2a_gateway_mcp.A2a.{Json}

pub record CallerSkill : Type 0 where
  pub name : String
  pub description : String

pub record CallerCapabilities : Type 0 where
  pub streaming : Bool
  pub push_notifications : Bool

pub record CallerCard : Type 0 where
  pub name : String
  pub description : String
  pub url : String
  pub skills : List CallerSkill
  pub capabilities : Option CallerCapabilities

pub data MetadataValue : Type 0 where
  json : Json → MetadataValue
  caller_card : CallerCard → MetadataValue

-- nil, or a map
abbrev pub Metadata : Type 0
Metadata = Option (GoMap MetadataValue)

abbrev pub default_caller_card_key : String
default_caller_card_key = "caller_agent_card"

pub record CallerCardStore : Type 0 where
  pub card : Option CallerCard
  pub key : String

unfoldable pub new_caller_card_store : CallerCardStore
new_caller_card_store = record { card = none; key = "" }

unfoldable pub set : CallerCard → String → CallerCardStore → CallerCardStore
set card metadata_key s = record {
  card = some card;
  key = if metadata_key == "" then default_caller_card_key else metadata_key;
}

unfoldable pub get : CallerCardStore → Option CallerCard
get s = s.card

-- The flag says whether there was a card.
unfoldable pub remove : CallerCardStore → Bool × CallerCardStore
remove s = elim s.card [ none ↦ (false, s) | some c ↦ (true, record { card = none; key = "" }) ]

-- The value under the key, once there is a card: an existing one stays.
abbrev pub injected : String → CallerCard → Metadata → Metadata
injected key card none = some (GoMap.insert key (caller_card card) GoMap.empty)
injected key card (some metadata) =
    if is_some (GoMap.lookup key metadata)
    then some metadata
    else some (GoMap.insert key (caller_card card) metadata)

unfoldable pub inject_caller_card : CallerCardStore → Metadata → Metadata
inject_caller_card s metadata = elim s.card [
  | none ↦ metadata
  | some card ↦ injected (if s.key == "" then default_caller_card_key else s.key) card metadata
]

-- metadata[k], of a map that may be nil
abbrev pub value_at : String → Metadata → Option MetadataValue
value_at k none = none
value_at k (some metadata) = GoMap.lookup k metadata

abbrev pub or_else : Option MetadataValue → MetadataValue → MetadataValue
or_else none v = v
or_else (some w) v = w

value_at-injected :
    (key k : String) (card : CallerCard) (metadata : Metadata)
    → value_at k (injected key card metadata) ≡ (
        if key == k
        then some (or_else (value_at key metadata) (caller_card card))
        else value_at k metadata)
value_at-injected key k card none =
    rw (GoMap.lookup-insert key k (caller_card card) GoMap.empty)
      (ground (arith, GoMap.lookup-empty {V = MetadataValue} k))
value_at-injected key k card (some metadata) =
    ground (arith, GoMap.lookup-insert key k (caller_card card) metadata, eq_iff key k)

-- The key under which a card is injected is never the empty one.
used_twice :
    (key : String)
    → (if (if key == "" then default_caller_card_key else key) == ""
        then default_caller_card_key
        else (if key == "" then default_caller_card_key else key))
      ≡ (if key == "" then default_caller_card_key else key)
used_twice key = elim (Bool-cases (key == "")) [ inl e ↦ rw e | inr e ↦ rw (e, e) ]

at_key :
    (key k : String) (card : CallerCard) (metadata : Metadata)
    → (if key == k
        then some (or_else (value_at key metadata) (caller_card card))
        else value_at k metadata)
      ≡ (if key == k
          then some (or_else (value_at k metadata) (caller_card card))
          else value_at k metadata)
at_key key k card metadata = elim (Bool-cases (key == k)) [
  | inl e ↦ rw (e, (eq_iff key k).0 e)
  | inr e ↦ rw e
]

-- Once a card is set under a key, every outbound message carries under that key, or under the
-- default one for the empty key, its own value if it has one there and the card otherwise; all other
-- values are the message's own.
pub inject-set :
    (card : CallerCard) (key k : String) (s : CallerCardStore) (metadata : Metadata)
    → value_at k (inject_caller_card (set card key s) metadata) ≡ (
        if (if key == "" then default_caller_card_key else key) == k
        then some (or_else (value_at k metadata) (caller_card card))
        else value_at k metadata)
unfolding inject_caller_card set
inject-set card key k s metadata =
    let used = if key == "" then default_caller_card_key else key in
    rw (used_twice key) (value_at-injected used k card metadata ∙ at_key used k card metadata)

-- Without a card, at first and after its removal, messages go out as they are.
pub inject-remove :
    (s : CallerCardStore) (metadata : Metadata)
    → (inject_caller_card new_caller_card_store metadata ≡ metadata)
      × (inject_caller_card (remove s).1 metadata ≡ metadata)
      × ((remove s).0 ≡ is_some (get s))
unfolding inject_caller_card remove new_caller_card_store get
inject-remove s metadata = (refl, ground arith, ground arith)
