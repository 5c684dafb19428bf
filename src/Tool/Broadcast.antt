-- ===== src/Tool/Broadcast.antt =====
-- internal/tool/tool_broadcast.go: broadcast_message, one agent at a time. The deadline of an agent's
-- context is what the world's answers obey; for a stream it is an argument too.
pub mod Transports
pub mod Agent
pub mod Handle
pub mod Outcome
pub mod Accounts
pub mod Unhealthy
pub mod Responses
pub mod Held
pub mod Summary
use a2a_gateway_mcp.Prelude.{
  ℕ, ◌*◌, Bool, true, false, not, ◌&&◌, ◌||◌, Option, none, some, List, [], ◌∷◌, String, ◌==◌,
  if◌then◌else◌, nat_eq, ltb, length,
}
use a2a_gateway_mcp.Prelude.Int.{ℤ, pos, negsuc}
use a2a_gateway_mcp.GoMap
use a2a_gateway_mcp.Errors
use a2a_gateway_mcp.Errors.{Error, Result, ok, err, errorf, text, error_text}
use a2a_gateway_mcp.A2a.{
  TaskState, submitted, working, completed, failed, canceled, input_required, auth_required,
  rejected, other, Message, Task, Part,
}
use a2a_gateway_mcp.Health.Classify.{
  ConnectionOutcome, outcome_success, outcome_connection_error, outcome_context_canceled,
  classify_error,
}
use a2a_gateway_mcp.Health.Tracker
use a2a_gateway_mcp.History.Recorder.{RecordInput}
use a2a_gateway_mcp.Registry.Agents
use a2a_gateway_mcp.Registry.Agents.{RegisteredAgent}
use a2a_gateway_mcp.Registry.CallerCards.{Metadata, inject_caller_card}
use a2a_gateway_mcp.Registry.Clients.{ClientResolver, resolve, evict}
use a2a_gateway_mcp.Registry.Limits
use a2a_gateway_mcp.Registry.Resolved.{ResolveResult}
use a2a_gateway_mcp.Tool.Background.{
  SendMessageResult, task_result, message_result, unrecognized_result,
}
use a2a_gateway_mcp.Tool.Input.{InputPart, build_message_parts, summarize_message}
use a2a_gateway_mcp.Tool.Parts.{
  extract_content_from_message_parts, extract_content_from_artifacts, extract_task_response_text,
}
use a2a_gateway_mcp.Tool.Retry.{is_auth_error}
use a2a_gateway_mcp.Tool.Send.{Environment, SendMessageRequest, Stores, Live, given_metadata}
use a2a_gateway_mcp.Tool.Send.Answer.{failure_text}
use a2a_gateway_mcp.Tool.Session.{supports_streaming}
use a2a_gateway_mcp.Tool.Stream.{StreamResult, StreamState, build_task_from_state, consume_stream}
use a2a_gateway_mcp.Tool.Stream.Gathering.{new_state}
use a2a_gateway_mcp.Tool.Stream.Handling.{SendMessageOutput, of_task, format_message_response}

pub record BroadcastMessageInput : Type 0 where
  pub aliases : List String
  pub message : String
  pub parts : List InputPart
  pub timeout_seconds : Option ℤ
  pub metadata : Metadata
  pub async : Option Bool

pub record BroadcastResult : Type 0 where
  pub status : String
  pub response : String
  pub error : String
  pub task : Option Task
  pub message : Option Message

pub record AgentOutcome : Type 0 where
  pub result : BroadcastResult
  pub response : Option SendMessageOutput

abbrev pub refused : String → String → AgentOutcome
refused status e = record {
  result = record { status = status; response = ""; error = e; task = none; message = none };
  response = none;
}

abbrev pub reported : String → String → Task → AgentOutcome
reported status shown task = record {
  result = record {
    status = status;
    response = shown;
    error = "";
    task = some task;
    message = none;
  };
  response = some (of_task task);
}

abbrev pub answered : String → Message → AgentOutcome
answered shown msg = record {
  result = record {
    status = "success";
    response = shown;
    error = "";
    task = none;
    message = some msg;
  };
  response = some (record { message = some msg; task = none; async = none });
}

unfoldable pub validate_input : BroadcastMessageInput → Option Error
validate_input input =
    if nat_eq (length input.aliases) 0
    then some (errorf "at least one alias is required" [])
    else if ltb 20 (length input.aliases)
    then some (
        errorf "maximum 20 aliases allowed, got %d"
          (Errors.number (pos (length input.aliases)) ∷ []))
    else if input.message == "" && nat_eq (length input.parts) 0
    then some (errorf "either 'message' or 'parts' is required" [])
    else none

abbrev bad_timeout : ℤ → Error
bad_timeout v =
    errorf "timeout_seconds must be between %d and %d, got %d"
      (Errors.number (pos 1) ∷ (Errors.number (pos 120) ∷ (Errors.number v ∷ [])))

unfoldable pub resolve_timeout : Option ℤ → Result ℕ
resolve_timeout none = ok 30
resolve_timeout (some (negsuc n)) = err (bad_timeout (negsuc n))
resolve_timeout (some (pos v)) = if ltb v 1 || ltb 120 v then err (bad_timeout (pos v)) else ok v

module _ (E : Environment) where
  open E use {
    limiting, sdk, decode_string, sprintf, state_name, rendering, World, send_message,
    send_streaming_message, record_input,
  }

  abbrev pub with_stores : (Stores E → Stores E) → Live E → Live E
  with_stores f s = record s { stores = f s.stores }

  abbrev pub still_running : TaskState → String
  still_running state =
      sprintf "timeout waiting for task completion (state: %s)" (text (state_name state) ∷ [])

  unfoldable pub handle_broadcast_task_result : Task → AgentOutcome
  handle_broadcast_task_result task = elim task.status.state [
    | completed ↦ reported "success" (extract_content_from_artifacts rendering task.artifacts) task
    | input_required ↦ reported "input-required" (extract_task_response_text rendering task) task
    | auth_required ↦ reported "auth-required" (extract_task_response_text rendering task) task
    | failed ↦ refused "error" (failure_text rendering task.status.message)
    | canceled ↦ refused "error" "task was canceled by the agent"
    | submitted ↦ refused "error" (still_running submitted)
    | working ↦ refused "error" (still_running working)
    | rejected ↦ refused "error" (still_running rejected)
    | other name ↦ refused "error" (still_running (other name))
  ]

  abbrev pub is_failed : String → Bool
  is_failed status = status == "error" || status == "skipped"

  -- What recordBroadcastHistory hands to the recorder.
  unfoldable pub broadcast_entry : String → BroadcastMessageInput → BroadcastResult → RecordInput
  unfolding summarize_message
  broadcast_entry alias input result = record {
    alias = alias;
    sent = summarize_message input.message input.parts;
    response =
        if result.response == "" && not (result.error == "") then result.error else result.response;
    context_id = "";
    task_id = "";
    is_error = is_failed result.status;
  }

  unfoldable pub record_broadcast_history :
      String → BroadcastMessageInput → BroadcastResult → Live E → Live E
  unfolding broadcast_entry
  record_broadcast_history alias input result s = record s {
    log = record_input (broadcast_entry alias input result) s.log;
  }

  abbrev pub outcome_health : ConnectionOutcome → String → Stores E → Stores E
  outcome_health outcome_connection_error alias s = record s {
    health = Tracker.record_failure alias s.health;
  }
  outcome_health outcome_success alias s = record s {
    health = Tracker.record_success alias s.health;
  }
  outcome_health outcome_context_canceled alias s = s

  unfoldable pub record_broadcast_health_outcome : String → Error → Stores E → Stores E
  record_broadcast_health_outcome alias e s = outcome_health (classify_error (some e)) alias s

  -- The outcome, with its entry in the history.
  abbrev pub told : String → BroadcastMessageInput → AgentOutcome × Live E → AgentOutcome × Live E
  told alias input (outcome, s) = (outcome, record_broadcast_history alias input outcome.result s)

  abbrev pub successful : String → Live E → Live E
  successful alias =
      with_stores (λ st. record st { health = Tracker.record_success alias st.health })

  abbrev pub failing : String → Error → Live E → Live E
  failing alias e = with_stores (record_broadcast_health_outcome alias e)
