-- ===== src/Tool/Broadcast/Handle.antt =====
-- internal/tool/tool_broadcast.go: Handle, the summary of an asynchronous broadcast and its
-- background part. The goroutines that a broadcast waits for run in the order given, and those that an
-- asynchronous one starts in the turns given, each as one step.
use a2a_gateway_mcp.Prelude.{
  ℕ, Bool, true, false, ◌++◌, Option, none, some, List, [], ◌∷◌, String, ◌==◌, if◌then◌else◌,
}
use a2a_gateway_mcp.GoMap
use a2a_gateway_mcp.GoMap.{GoMap}
use a2a_gateway_mcp.Errors.{Error, Result, ok, err, text, error_text}
use a2a_gateway_mcp.Registry.Agents
use a2a_gateway_mcp.Registry.Agents.{RegisteredAgent}
use a2a_gateway_mcp.Registry.Inbox.{InboxEntry, deposit}
use a2a_gateway_mcp.Registry.Limits
use a2a_gateway_mcp.Registry.Limits.{RateLimiterRegistry}
use a2a_gateway_mcp.Tool.Broadcast.{
  BroadcastMessageInput, AgentOutcome, with_stores, validate_input, resolve_timeout,
}
use a2a_gateway_mcp.Tool.Broadcast.Agent.{broadcast_to_agent, fan_out, build_response}
use a2a_gateway_mcp.Tool.Send.{Environment, Live}
use a2a_gateway_mcp.Tool.Send.Handle.{is_async}
use a2a_gateway_mcp.Tool.Stream.Handling.{SendMessageOutput}

-- What is said of an agent at once.
abbrev pub dispatch : String → String → String → SendMessageOutput
dispatch alias status e = record {
  message = none;
  task = none;
  async = some (record { alias = alias; status = status; error = e });
}

module _ (E : Environment) where
  open E use {limiting, sprintf, state_name}

  abbrev pub blank : String → InboxEntry
  blank alias = record {
    alias = alias;
    task_id = "";
    context_id = "";
    state = "";
    timestamp = 0;
    task = none;
    message = none;
    error = "";
  }

  -- The entry of a response that has a task or a message.
  abbrev pub of_response : String → Option SendMessageOutput → InboxEntry
  of_response alias none = blank alias
  of_response alias (some resp) = elim resp.task [
    | some task ↦ record (blank alias) {
      task_id = task.id;
      context_id = task.context_id;
      state = state_name task.status.state;
      task = some task;
    }
    | none ↦ elim resp.message [
      | some msg ↦ record (blank alias) {
        context_id = msg.context_id;
        state = "completed";
        message = some msg;
      }
      | none ↦ blank alias
    ]
  ]

  abbrev pub entry_of_outcome : String → AgentOutcome → InboxEntry
  entry_of_outcome alias outcome =
      if outcome.result.status == "error"
      then record (blank alias) { state = "error"; error = outcome.result.error }
      else of_response alias outcome.response

  -- The deposit is at the time `later`.
  unfoldable pub background_broadcast_to_agent :
      ℕ → ℕ → ℕ → String → BroadcastMessageInput → Live E → Live E
  unfolding broadcast_to_agent
  background_broadcast_to_agent now later timeout alias input s =
      let (outcome, s') = broadcast_to_agent E now timeout alias input s in
      with_stores E
        (λ st. record st { inbox = deposit later (entry_of_outcome alias outcome) st.inbox }) s'

  -- The answer of the limiter, and whether a goroutine is started.
  abbrev pub checked_dispatch :
      String
      → Option Error × RateLimiterRegistry limiting
      → Live E
      → SendMessageOutput × (Bool × Live E)
  checked_dispatch alias (some e, limits) s = (
    dispatch alias "error" (sprintf "rate limited: %s" (text (error_text sprintf e) ∷ [])),
    (false, with_stores E (λ st. record st { limits = limits }) s),
  )
  checked_dispatch alias (none, limits) s = (
    dispatch alias "dispatched" "",
    (true, with_stores E (λ st. record st { limits = limits }) s),
  )

  abbrev pub dispatch_one :
      ℕ → String → Option RegisteredAgent → Live E → SendMessageOutput × (Bool × Live E)
  dispatch_one now alias none s =
      (dispatch alias "error" (sprintf "alias %q is not registered" (text alias ∷ [])), (false, s))
  dispatch_one now alias (some entry) s =
      checked_dispatch alias (Limits.check_rate_limit limiting now alias s.stores.limits) s

  -- The goroutines that are started and have not run, by their aliases. A turn says of each in order
  -- whether it runs; those that it does not name wait.
  abbrev pub Turn : Type 0
  Turn = List Bool

  unfoldable pub take_turn :
      ℕ → ℕ → ℕ → BroadcastMessageInput → Turn → List String → Live E → List String × Live E
  unfolding background_broadcast_to_agent
  take_turn now later timeout input [] waiting s = (waiting, s)
  take_turn now later timeout input (b ∷ turn) [] s = ([], s)
  take_turn now later timeout input (true ∷ turn) (alias ∷ waiting) s =
      take_turn now later timeout input turn waiting
        (background_broadcast_to_agent now later timeout alias input s)
  take_turn now later timeout input (false ∷ turn) (alias ∷ waiting) s =
      let (rest, s') = take_turn now later timeout input turn waiting s in (alias ∷ rest, s')

  abbrev pub first_turn : List Turn → Turn
  first_turn [] = []
  first_turn (turn ∷ turns) = turn

  abbrev pub other_turns : List Turn → List Turn
  other_turns [] = []
  other_turns (turn ∷ turns) = turns

  abbrev pub started : Bool → String → List String → List String
  started true alias waiting = waiting ++ alias ∷ []
  started false alias waiting = waiting

  -- The loop over the aliases. The goroutine of an alias that is dispatched is started there; after
  -- each alias a turn says which of those started run, each as one step. The rest are returned.
  unfoldable pub broadcast_async :
      ℕ
      → ℕ
      → ℕ
      → BroadcastMessageInput
      → List Turn
      → List String
      → List String
      → GoMap SendMessageOutput
      → Live E
      → GoMap SendMessageOutput × (List String × Live E)
  unfolding take_turn
  broadcast_async now later timeout input turns [] waiting results s = (results, (waiting, s))
  broadcast_async now later timeout input turns (alias ∷ aliases) waiting results s =
      let (output, (start, s')) = dispatch_one now alias (Agents.lookup alias s.stores.agents) s in
      let (rest, s'') =
        take_turn now later timeout input (first_turn turns) (started start alias waiting) s' in
      broadcast_async now later timeout input (other_turns turns) aliases rest
        (GoMap.insert alias output results) s''

  -- What the handler leaves: the goroutines that have not run, and the state.
  abbrev pub Left : Type 0
  Left = List String × Live E

  abbrev pub answer :
      ℕ
      → ℕ
      → List String
      → List Turn
      → BroadcastMessageInput
      → Result ℕ
      → Live E
      → Result (GoMap SendMessageOutput) × Left
  answer now later order turns input (err e) s = (err e, ([], s))
  answer now later order turns input (ok timeout) s =
      if is_async E input.async
      then (let (results, left) =
            broadcast_async now later timeout input turns input.aliases [] GoMap.empty s in
          (ok results, left))
      else let (outcomes, s') = fan_out E now timeout input order GoMap.empty s in
        (ok (build_response E outcomes), ([], s'))

  abbrev pub validated :
      ℕ
      → ℕ
      → List String
      → List Turn
      → BroadcastMessageInput
      → Option Error
      → Live E
      → Result (GoMap SendMessageOutput) × Left
  validated now later order turns input (some e) s = (err e, ([], s))
  validated now later order turns input none s =
      answer now later order turns input (resolve_timeout input.timeout_seconds) s

  -- `order` is that of the goroutines that the handler waits for: the aliases in some order. `turns` are
  -- those of the ones that it does not wait for.
  unfoldable pub handle :
      ℕ
      → ℕ
      → List String
      → List Turn
      → BroadcastMessageInput
      → Live E
      → Result (GoMap SendMessageOutput) × Left
  unfolding validate_input resolve_timeout broadcast_async fan_out build_response
  handle now later order turns input s =
      validated now later order turns input (validate_input input) s
