-- ===== src/Tool/Broadcast/Held.antt =====
-- The background parts of an asynchronous broadcast: whatever turns they get, none is lost.
use a2a_gateway_mcp.Prelude.{
  Bool, false, or_assoc, or_moved, or_under, ◌++◌, Option-cases, arith, or_false, ℕ, ◌≡◌, refl, ap,
  ◌∙◌, true, ◌||◌, Option, none, some, List, [], ◌∷◌, String, ◌==◌, is_some, ◌⊎◌, inl, inr,
  Bool-cases,
}
use a2a_gateway_mcp.Registry.Agents
use a2a_gateway_mcp.Registry.Agents.{AgentRegistry, RegisteredAgent}
use a2a_gateway_mcp.A2a.{Task, Message}
use a2a_gateway_mcp.Registry.Inbox.{InboxEntry, MemoryInbox, stamped, deposit}
use a2a_gateway_mcp.Tool.Broadcast.{BroadcastMessageInput, AgentOutcome}
use a2a_gateway_mcp.Tool.Broadcast.Agent.{broadcast_to_agent}
use a2a_gateway_mcp.Tool.Broadcast.Accounts.{broadcast-Tells}
use a2a_gateway_mcp.Tool.Broadcast.Handle.{
  background_broadcast_to_agent, of_response, entry_of_outcome, Turn, take_turn, dispatch,
}
use a2a_gateway_mcp.Tool.Broadcast.Responses.{occurs}
use a2a_gateway_mcp.Tool.Send.{Environment, Live}
use a2a_gateway_mcp.Tool.Stream.Handling.{SendMessageOutput, AsyncSendOutput}

-- The output is the dispatch of the alias, or the error that stopped it; only a registered agent is
-- dispatched, and then its background part is held: it waits, or it has left an entry in the inbox.
abbrev pub IsSummary : AgentRegistry → Bool → String → SendMessageOutput → Type 0
IsSummary agents held alias output =
    ((output ≡ dispatch alias "dispatched" "")
      × (is_some (Agents.lookup alias agents) ≡ true)
      × (held ≡ true))
    ⊎ ((e : String) × (output ≡ dispatch alias "error" e))

pub IsSummary-held :
    (agents : AgentRegistry) (held held' : Bool) (alias : String) (output : SendMessageOutput)
    → (held ≡ true → held' ≡ true)
    → IsSummary agents held alias output
    → IsSummary agents held' alias output
IsSummary-held agents held held' alias output keep (inl (o, r, h)) = inl (o, r, keep h)
IsSummary-held agents held held' alias output keep (inr e) = inr e

-- Is there an entry of the agent?
abbrev pub has_entry : String → List InboxEntry → Bool
has_entry k [] = false
has_entry k (e ∷ es) = (e.alias == k) || has_entry k es

pub has_entry-snoc :
    (k : String) (es : List InboxEntry) (e : InboxEntry)
    → has_entry k (es ++ e ∷ []) ≡ (has_entry k es || (e.alias == k))
has_entry-snoc k [] e = or_false (e.alias == k)
has_entry-snoc k (d ∷ es) e =
    ap (λ b. (d.alias == k) || b) (has_entry-snoc k es e)
    ∙ or_assoc (d.alias == k) (has_entry k es) (e.alias == k)

pub occurs-snoc :
    (k j : String) (js : List String) → occurs k (js ++ j ∷ []) ≡ (occurs k js || (j == k))
occurs-snoc k j [] = or_false (j == k)
occurs-snoc k j (i ∷ js) =
    ap (λ b. (i == k) || b) (occurs-snoc k j js) ∙ or_assoc (i == k) (occurs k js) (j == k)

stamped-alias : (now : ℕ) (e : InboxEntry) → (stamped now e).alias ≡ e.alias
unfolding stamped
stamped-alias now e = ground arith

has_entry-deposit :
    (now : ℕ) (k : String) (e : InboxEntry) (m : MemoryInbox)
    → has_entry k (deposit now e m).entries ≡ (has_entry k m.entries || (e.alias == k))
unfolding deposit
has_entry-deposit now k e m =
    has_entry-snoc k m.entries (stamped now e)
    ∙ ap (λ a. has_entry k m.entries || (a == k)) (stamped-alias now e)

module _ (E : Environment) where
  open E use {limiting, sprintf}

  -- What is there of it has the property.
  abbrev pub Every : (SendMessageOutput → Type 0) → Option SendMessageOutput → Type 0
  Every P none = Unit
  Every P (some output) = P output

  -- The background part of the agent waits, or the inbox has an entry of it.
  abbrev pub is_held : String → List String → Live E → Bool
  is_held k waiting s = occurs k waiting || has_entry k s.stores.inbox.entries

  -- What a broadcast only reads.
  abbrev pub Reads : Live E → Live E → Type 0
  Reads s s' =
      (s'.stores.agents ≡ s.stores.agents)
      × (s'.stores.contexts ≡ s.stores.contexts)
      × (s'.stores.caller_cards ≡ s.stores.caller_cards)

  pub Reads-twice : (s s' s'' : Live E) → Reads s s' → Reads s' s'' → Reads s s''
  Reads-twice s s' s'' (a, b, c) (a', b', c') = (a' ∙ a, b' ∙ b, c' ∙ c)

  response-alias :
      (alias : String) (task : Option Task) (message : Option Message)
      (async : Option AsyncSendOutput)
      → (of_response E alias
          (some (record { message = message; task = task; async = async }))).alias
        ≡ alias
  response-alias alias (some task) message async = refl
  response-alias alias none (some message) async = refl
  response-alias alias none none async = refl

  outcome-alias :
      (alias : String) (outcome : AgentOutcome) → (entry_of_outcome E alias outcome).alias ≡ alias
  outcome-alias alias outcome = elim (Bool-cases (outcome.result.status == "error")) [
    | inl q ↦ rw q refl
    | inr q ↦ rw q (elim (Option-cases outcome.response) [
      | inl n ↦ rw n refl
      | inr (resp, r) ↦ rw r (response-alias alias resp.task resp.message resp.async)
    ])
  ]

  -- A background part leaves an entry of its agent, and keeps those that there are.
  background-entry :
      (now later timeout : ℕ) (alias k : String) (input : BroadcastMessageInput) (s : Live E)
      → let s' = background_broadcast_to_agent E now later timeout alias input s in
        (has_entry k s'.stores.inbox.entries ≡ (has_entry k s.stores.inbox.entries || (alias == k)))
        × Reads s s'
  unfolding background_broadcast_to_agent
  background-entry now later timeout alias k input s =
      let (outcome, sent) = broadcast_to_agent E now timeout alias input s in
      let (consistent, agents, contexts, cards, inbox, log) =
        broadcast-Tells E now timeout alias input s in
      (
        has_entry-deposit later k (entry_of_outcome E alias outcome) sent.stores.inbox
            ∙ ap (λ m. has_entry k m.entries || ((entry_of_outcome E alias outcome).alias == k))
                inbox
            ∙ ap (λ a. has_entry k s.stores.inbox.entries || (a == k))
                (outcome-alias alias outcome),
        (agents, contexts, cards),
      )

  -- Whoever has a turn, what is held stays so.
  pub turn-held :
      (now later timeout : ℕ) (k : String) (input : BroadcastMessageInput) (turn : Turn E)
      (waiting : List String) (s : Live E)
      → let out = take_turn E now later timeout input turn waiting s in
        (is_held k waiting s ≡ true → is_held k out.0 out.1 ≡ true) × Reads s out.1
  unfolding take_turn
  turn-held now later timeout k input [] waiting s = ((λ h. h), (refl, refl, refl))
  turn-held now later timeout k input (b ∷ turn) [] s = ((λ h. h), (refl, refl, refl))
  turn-held now later timeout k input (true ∷ turn) (alias ∷ waiting) s =
      let s' = background_broadcast_to_agent E now later timeout alias input s in
      let (left, reads) = background-entry now later timeout alias k input s in
      let (keep, still) = turn-held now later timeout k input turn waiting s' in
      (
        λ h. keep (
            ap (λ b. occurs k waiting || b) left
            ∙ or_moved (occurs k waiting) (has_entry k s.stores.inbox.entries) (alias == k)
            ∙ h),
        Reads-twice s s' (take_turn E now later timeout input turn waiting s').1 reads still,
      )
  turn-held now later timeout k input (false ∷ turn) (alias ∷ waiting) s =
      let (keep, reads) = turn-held now later timeout k input turn waiting s in
      let out = take_turn E now later timeout input turn waiting s in
      (
        or_under (alias == k) (occurs k waiting) (has_entry k s.stores.inbox.entries)
            (occurs k out.0) (has_entry k out.1.stores.inbox.entries) keep,
        reads,
      )
