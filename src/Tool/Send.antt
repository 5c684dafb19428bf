-- ===== src/Tool/Send.antt =====
-- internal/tool/tool_send.go: send_message. What surrounds the tool is a parameter: the packages of
-- the limiter and of the SDK, the agents behind a client as a world that answers its calls, the
-- formatting, and the recorder of the history, which the code takes as an interface too.
pub mod Answer
pub mod Handle
pub mod Composition
pub mod Polled
pub mod Conversation
pub mod Success
pub mod Recording
pub mod Direct
pub mod Transports
pub mod Carried
use a2a_gateway_mcp.Prelude.{
  ℕ, Bool, true, false, not, ◌&&◌, Option, none, some, List, [], ◌∷◌, String, ◌==◌, if◌then◌else◌,
  nat_eq,
}
use a2a_gateway_mcp.Prelude.Int.{ℤ}
use a2a_gateway_mcp.GoMap
use a2a_gateway_mcp.Errors.{Error, Result, ok, err, errorf, wrapf, Arg}
use a2a_gateway_mcp.A2a.{TaskState, Part}
use a2a_gateway_mcp.Validate.{ParsedUrl}
use a2a_gateway_mcp.Health.Classify.{
  ConnectionOutcome, outcome_success, outcome_connection_error, outcome_context_canceled,
  classify_error,
}
use a2a_gateway_mcp.Health.Tracker
use a2a_gateway_mcp.History.Recorder.{RecordInput}
use a2a_gateway_mcp.Registry.CallerCards.{Metadata, inject_caller_card}
use a2a_gateway_mcp.Registry.Clients.{A2aClients, ClientResolver, resolve}
use a2a_gateway_mcp.Registry.Contexts
use a2a_gateway_mcp.Registry.Limits.{RateLimiting, RateLimiterRegistry, check_rate_limit}
use a2a_gateway_mcp.Registry.Resolved.{ResolveResult}
use a2a_gateway_mcp.Tool.Background.{SendMessageResult}
use a2a_gateway_mcp.Tool.Input.{InputPart, Decoded, build_message_parts}
use a2a_gateway_mcp.Tool.Parts.{Rendering, handle_a2a_error}
use a2a_gateway_mcp.Tool.Poll.{Round}
use a2a_gateway_mcp.Tool.Session.{Session, resolve_agent}
use a2a_gateway_mcp.Tool.Stream.{Item}

pub record SendMessageInput : Type 0 where
  pub agent : String
  pub message : String
  pub parts : List InputPart
  pub context_id : String
  pub task_id : String
  pub metadata : Metadata
  pub poll_timeout_seconds : Option ℤ
  pub async : Option Bool

-- The fields of a2a.Message that an outbound message has: it is the user's.
pub record OutboundMessage : Type 0 where
  pub parts : List (Option Part)
  pub context_id : String
  pub task_id : String

pub record SendMessageRequest : Type 0 where
  pub message : OutboundMessage
  pub metadata : Metadata

-- What the loop of a polling meets, from the time on at which it starts.
pub record Polling : Type 0 where
  pub start : ℕ
  pub rounds : List Round

pub record Environment : Type 1 where
  pub limiting : RateLimiting
  pub sdk : A2aClients
  -- url.Parse, base64.StdEncoding.DecodeString, fmt.Sprintf, the text of a state and of a duration
  pub parse : String → ParsedUrl
  pub decode_string : String → Decoded
  pub sprintf : String → List Arg → String
  pub state_name : TaskState → String
  pub show_duration : ℤ → String
  pub rendering : Rendering
  -- EffectivePollTimeout and EffectiveStreamTimeout
  pub effective_poll_timeout : Option ℤ → ℤ
  pub effective_stream_timeout : Option ℤ → ℤ
  -- the agents, and the methods of a client: the stream is that of a context with the timeout, and
  -- the rounds of a polling ask for the task with the identifier
  pub World : Type 0
  pub send_message : sdk.Client → SendMessageRequest → World → Result SendMessageResult × World
  pub send_streaming_message : sdk.Client → ℤ → SendMessageRequest → World → List Item × World
  pub poll : sdk.Client → String → World → Polling × World
  -- HistoryRecorder
  pub Log : Type 0
  pub record_input : RecordInput → Log → Log

-- Metadata without a value are left out.
abbrev pub given_metadata : Metadata → Metadata
given_metadata none = none
given_metadata (some m) = if nat_eq (GoMap.size m) 0 then none else some m

module _ (E : Environment) where
  open E use {limiting, sdk, parse, decode_string, World, Log}

  pub record SendRequest : Type 0 where
    pub resolved : ResolveResult
    pub client : sdk.Client
    pub request : SendMessageRequest

  abbrev pub Stores : Type 0
  Stores = Session limiting sdk

  -- The stores, the agents and the history.
  pub record Live : Type 0 where
    pub stores : Stores
    pub world : World
    pub log : Log

  -- The priority of the context: explicit, stored, empty.
  unfoldable pub context_for : SendMessageInput → ResolveResult → Stores → String
  context_for input resolved s =
      if input.context_id == "" && resolved.is_alias
      then Contexts.get input.agent s.contexts
      else input.context_id

  abbrev pub request_of :
      SendMessageInput → List (Option Part) → ResolveResult → Stores → SendMessageRequest
  request_of input parts resolved s = record {
    message = record {
      parts = parts;
      context_id = context_for input resolved s;
      task_id = input.task_id;
    };
    metadata = inject_caller_card s.caller_cards (given_metadata input.metadata);
  }

  abbrev pub with_client :
      ResolveResult
      → SendMessageRequest
      → Result sdk.Client × ClientResolver sdk
      → Stores
      → Result SendRequest × Stores
  with_client resolved request (err e, clients) s =
      (err (handle_a2a_error e), record s { clients = clients })
  with_client resolved request (ok client, clients) s = (
    ok (record { resolved = resolved; client = client; request = request }),
    record s { clients = clients },
  )

  -- The limiter has let the message pass, or it is not asked.
  abbrev pub admitted :
      SendMessageInput → List (Option Part) → ResolveResult → Stores → Result SendRequest × Stores
  admitted input parts resolved s =
      with_client resolved (request_of input parts resolved s)
        (resolve sdk s.agents resolved s.clients) s

  abbrev pub limited_by :
      SendMessageInput
      → List (Option Part)
      → ResolveResult
      → Option Error × RateLimiterRegistry limiting
      → Stores
      → Result SendRequest × Stores
  limited_by input parts resolved (some e, limits) s =
      (err (wrapf "rate limited: %w" [] e), record s { limits = limits })
  limited_by input parts resolved (none, limits) s =
      admitted input parts resolved (record s { limits = limits })

  abbrev pub to_agent :
      ℕ
      → SendMessageInput
      → List (Option Part)
      → Result ResolveResult
      → Stores
      → Result SendRequest × Stores
  to_agent now input parts (err e) s = (err e, s)
  to_agent now input parts (ok resolved) s =
      if resolved.is_alias
      then limited_by input parts resolved (check_rate_limit limiting now resolved.alias s.limits) s
      else admitted input parts resolved s

  abbrev pub with_parts :
      ℕ → SendMessageInput → Result (List (Option Part)) → Stores → Result SendRequest × Stores
  with_parts now input (err e) s = (err e, s)
  with_parts now input (ok parts) s =
      to_agent now input parts (resolve_agent parse s.agents input.agent) s

  -- The limiter is asked at the time `now`.
  unfoldable pub build_send_request : ℕ → SendMessageInput → Stores → Result SendRequest × Stores
  unfolding context_for
  build_send_request now input s =
      if input.agent == ""
      then (err (errorf "agent identifier is required" []), s)
      else with_parts now input (build_message_parts decode_string input.message input.parts) s

  abbrev pub outcome_health : ConnectionOutcome → String → Stores → Stores
  outcome_health outcome_connection_error alias s = record s {
    health = Tracker.record_failure alias s.health;
  }
  outcome_health outcome_success alias s = s
  outcome_health outcome_context_canceled alias s = s

  unfoldable pub record_health_outcome : ResolveResult → Error → Stores → Stores
  record_health_outcome resolved e s =
      if not resolved.is_alias then s else outcome_health (classify_error (some e)) resolved.alias s

  abbrev pub successful : ResolveResult → Stores → Stores
  successful resolved s =
      if resolved.is_alias
      then record s { health = Tracker.record_success resolved.alias s.health }
      else s
