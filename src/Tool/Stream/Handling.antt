-- ===== src/Tool/Stream/Handling.antt =====
-- internal/tool/helpers.go: handleStreamingMessage and the formatting of its outputs. What the stream
-- of the SDK's client yields under the timeout is an argument.
use a2a_gateway_mcp.Prelude.{
  ◌≡◌, refl, Bool, true, false, not, ◌&&◌, Option, none, some, List, [], ◌∷◌, String, ◌==◌,
  if◌then◌else◌,
}
use a2a_gateway_mcp.Errors.{
  Error, Result, ok, err, text, Formatted, errors_is, stream_timeout, stream_connection_timeout,
}
use a2a_gateway_mcp.A2a.{
  TaskState, submitted, working, completed, failed, canceled, input_required, auth_required,
  rejected, other, Task, Message,
}
use a2a_gateway_mcp.Registry.Contexts
use a2a_gateway_mcp.Registry.Contexts.{ContextStore}
use a2a_gateway_mcp.Registry.Resolved.{ResolveResult}
use a2a_gateway_mcp.Tool.Parts.{Rendering}
use a2a_gateway_mcp.Tool.Stream.{Item, StreamResult, build_task_from_state, consume_stream}
use a2a_gateway_mcp.Tool.Stream.Gathering.{new_state}

pub record AsyncSendOutput : Type 0 where
  pub alias : String
  pub status : String
  pub error : String

pub record SendMessageOutput : Type 0 where
  pub message : Option Message
  pub task : Option Task
  pub async : Option AsyncSendOutput

abbrev pub of_task : Task → SendMessageOutput
of_task t = record { message = none; task = some t; async = none }

unfoldable pub format_message_response : Message → SendMessageOutput
format_message_response msg = record { message = some msg; task = none; async = none }

unfoldable pub format_interrupted_response : Task → String → SendMessageOutput
format_interrupted_response task state_name = of_task task

unfoldable pub format_input_required_response : Task → SendMessageOutput
unfolding format_interrupted_response
format_input_required_response task = format_interrupted_response task "input-required"

unfoldable pub format_task_response : Task → SendMessageOutput
format_task_response task = of_task task

abbrev by_state : TaskState → Task → SendMessageOutput
by_state completed task = format_task_response task
by_state input_required task = format_input_required_response task
by_state auth_required task = format_interrupted_response task "auth-required"
by_state failed task = of_task task
by_state canceled task = of_task task
by_state rejected task = of_task task
by_state submitted task = of_task task
by_state working task = of_task task
by_state (other s) task = of_task task

unfoldable pub format_stream_task : Task → SendMessageOutput
unfolding format_task_response format_input_required_response format_interrupted_response
format_stream_task task = by_state task.status.state task

-- The text of a failed call: that of an error, or a format of its own.
pub data CallError : Type 0 where
  of_error : Error → CallError
  of_format : Formatted → CallError

-- The three results of a handler: the tool result, here only with IsError, the output, the error.
pub record Handled : Type 0 where
  pub result : Option CallError
  pub structured : Option SendMessageOutput
  pub error : Option Error

abbrev pub call_error : String → Error → CallError
call_error timeout e =
    if errors_is stream_timeout e
    then of_format (record {
      format = "timeout waiting for streaming response to complete (timed out after %s)";
      args = text timeout ∷ [];
    })
    else if errors_is stream_connection_timeout e
    then of_format
        (record { format = "stream connection timed out after %s"; args = text timeout ∷ [] })
    else of_error e

-- The context and the output of the result.
abbrev outcome : StreamResult → String × Option SendMessageOutput
outcome r = elim r.task [
  | some task ↦ (task.context_id, some (format_stream_task task))
  | none ↦ elim r.message [
    | some message ↦ (message.context_id, some (format_message_response message))
    | none ↦
        if r.terminated_by_status
        then (
          (build_task_from_state r.state).context_id,
          some (format_stream_task (build_task_from_state r.state)),
        )
        else ("", none)
  ]
]

abbrev kept : ResolveResult → String → String → ContextStore → ContextStore
kept resolved agent context_id store =
    if resolved.is_alias && not (context_id == "")
    then Contexts.set agent context_id store
    else store

unfoldable pub conclude :
    ResolveResult → String → String → ContextStore → Result StreamResult → Handled × ContextStore
unfolding build_task_from_state format_stream_task format_message_response
conclude resolved agent timeout store (err e) =
    (record { result = some (call_error timeout e); structured = none; error = none }, store)
conclude resolved agent timeout store (ok r) =
    let (context_id, structured) = outcome r in
    (
      record { result = none; structured = structured; error = none },
      kept resolved agent (if context_id == "" then r.state.context_id else context_id) store,
    )

module _ (X : Rendering) where
  unfoldable pub handle_streaming_message :
      Option (List (TaskState × String))
      → List Item
      → ResolveResult
      → String
      → String
      → ContextStore
      → Handled × ContextStore
  unfolding conclude consume_stream
  handle_streaming_message progress events resolved agent timeout store =
      conclude resolved agent timeout store (consume_stream X events (new_state progress)).0

  abbrev pub is_failure {ℓ} : {A : Type ℓ} → Result A → Bool
  is_failure (ok a) = false
  is_failure (err e) = true

  conclude_no_error :
      (resolved : ResolveResult) (agent timeout : String) (store : ContextStore)
      (r : Result StreamResult)
      → (conclude resolved agent timeout store r).0.error ≡ none
  unfolding conclude
  conclude_no_error resolved agent timeout store (ok r) = refl
  conclude_no_error resolved agent timeout store (err e) = refl

  -- Whatever the stream yields, errors of authentication included, the third result is no error.
  pub streaming_no_error :
      (progress : Option (List (TaskState × String))) (events : List Item)
      (resolved : ResolveResult) (agent timeout : String) (store : ContextStore)
      → (handle_streaming_message progress events resolved agent timeout store).0.error ≡ none
  unfolding handle_streaming_message
  streaming_no_error progress events resolved agent timeout store =
      conclude_no_error resolved agent timeout store
        (consume_stream X events (new_state progress)).0
