-- ===== src/Tool/Send/Answer.antt =====
-- internal/tool/tool_send.go: what becomes of the answer to a message, the polling of its task
-- included, and the record of it in the history. `none` says that the polling still waits.
use Prim.Native.String.{String}
use a2a_gateway_mcp.Prelude.{
  ◌≡◌, refl, ◌≡◌, Bool, true, false, not, ◌&&◌, Option, none, some, List, [], ◌∷◌, ◌==◌,
  if◌then◌else◌,
}
use a2a_gateway_mcp.Prelude.Int.{ℤ}
use a2a_gateway_mcp.Errors.{Error, errorf, Arg, text, error_text}
use a2a_gateway_mcp.A2a.{
  TaskState, submitted, working, completed, failed, canceled, input_required, auth_required,
  rejected, other, Message, Task,
}
use a2a_gateway_mcp.History.Recorder.{RecordInput}
use a2a_gateway_mcp.Registry.Contexts
use a2a_gateway_mcp.Registry.Resolved.{ResolveResult}
use a2a_gateway_mcp.Tool.Background.{
  SendMessageResult, task_result, message_result, unrecognized_result,
}
use a2a_gateway_mcp.Tool.Input.{summarize_message}
use a2a_gateway_mcp.Tool.Parts.{Rendering, extract_status_message_text}
use a2a_gateway_mcp.Tool.Poll.{poll_task_completion}
use a2a_gateway_mcp.Tool.Send.{Environment, SendMessageInput, Polling, SendRequest, Live}
use a2a_gateway_mcp.Tool.Stream.Handling.{
  CallError, of_error, of_format, SendMessageOutput, of_task, Handled, format_message_response,
  format_input_required_response, format_interrupted_response, format_task_response,
}

abbrev pub handled : Option SendMessageOutput → Option Error → Handled
handled structured e = record { result = none; structured = structured; error = e }

-- task failed, or the text of its status
abbrev pub failure_text : Rendering → Option Message → String
failure_text X none = "task failed"
failure_text X (some msg) =
    let shown = extract_status_message_text X msg in if shown == "" then "task failed" else shown

abbrev pub task_canceled : Error
task_canceled = errorf "task was canceled by the agent" []

-- The outcome of a task that is answered at once, in a state at which it ends or waits for the user,
-- and of the others.
unfoldable pub settled : Rendering → TaskState → Task → Handled → Handled
unfolding format_task_response format_input_required_response format_interrupted_response
settled X completed task others = handled (some (format_task_response task)) none
settled X input_required task others = handled (some (format_input_required_response task)) none
settled X auth_required task others =
    handled (some (format_interrupted_response task "auth-required")) none
settled X failed task others =
    handled (some (of_task task)) (some (errorf (failure_text X task.status.message) []))
settled X canceled task others = handled (some (of_task task)) (some task_canceled)
settled X submitted task others = others
settled X working task others = others
settled X rejected task others = others
settled X (other s) task others = others

-- The outcome of a task after its polling: the switch that comes after it.
unfoldable pub settled_late : Rendering → TaskState → Task → Handled → Handled
unfolding format_task_response format_input_required_response format_interrupted_response
settled_late X completed task others = handled (some (format_task_response task)) none
settled_late X input_required task others =
    handled (some (format_input_required_response task)) none
settled_late X auth_required task others =
    handled (some (format_interrupted_response task "auth-required")) none
settled_late X failed task others =
    handled (some (of_task task)) (some (errorf (failure_text X task.status.message) []))
settled_late X canceled task others = handled (some (of_task task)) (some task_canceled)
settled_late X submitted task others = others
settled_late X working task others = others
settled_late X rejected task others = others
settled_late X (other s) task others = others

pub settled_late-settled :
    (X : Rendering) (state : TaskState) (task : Task) (others : Handled)
    → settled_late X state task others ≡ settled X state task others
unfolding settled settled_late
settled_late-settled X completed task others = refl
settled_late-settled X input_required task others = refl
settled_late-settled X auth_required task others = refl
settled_late-settled X failed task others = refl
settled_late-settled X canceled task others = refl
settled_late-settled X submitted task others = refl
settled_late-settled X working task others = refl
settled_late-settled X rejected task others = refl
settled_late-settled X (other s) task others = refl

-- The task of a polling, if it has one.
abbrev pub last_known : Task → Option Task → Task
last_known sent none = sent
last_known sent (some polled) = polled

-- Known states that are not final.
unfoldable pub is_pending : TaskState → Bool
is_pending submitted = true
is_pending working = true
is_pending completed = false
is_pending failed = false
is_pending canceled = false
is_pending input_required = false
is_pending auth_required = false
is_pending rejected = false
is_pending (other s) = false

unfoldable pub extract_response_context_id : Option SendMessageOutput → String
extract_response_context_id none = ""
extract_response_context_id (some resp) = elim resp.task [
  | some task ↦ task.context_id
  | none ↦ elim resp.message [ some message ↦ message.context_id | none ↦ "" ]
]

unfoldable pub extract_response_task_id : Option SendMessageOutput → String
extract_response_task_id none = ""
extract_response_task_id (some resp) = elim resp.task [ some task ↦ task.id | none ↦ "" ]

-- The one text of a tool result.
unfoldable pub extract_result_text : (String → List Arg → String) → Option CallError → String
extract_result_text sprintf none = ""
extract_result_text sprintf (some (of_error e)) = error_text sprintf e
extract_result_text sprintf (some (of_format f)) = sprintf f.format f.args

-- Every tool result of the handlers is one with IsError.
abbrev pub is_error : Option CallError → Bool
is_error none = false
is_error (some e) = true

module _ (E : Environment) where
  open E use {
    sdk, sprintf, state_name, show_duration, rendering, effective_poll_timeout, poll, record_input,
  }

  -- What recordHistory hands to the recorder.
  unfoldable pub history_input :
      SendMessageInput → Option CallError → Option SendMessageOutput → RecordInput
  unfolding summarize_message extract_result_text extract_response_context_id
      extract_response_task_id
  history_input input result structured = record {
    alias = input.agent;
    sent = summarize_message input.message input.parts;
    response = extract_result_text sprintf result;
    context_id = extract_response_context_id structured;
    task_id = extract_response_task_id structured;
    is_error = is_error result;
  }

  unfoldable pub record_history :
      SendMessageInput → Option CallError → Option SendMessageOutput → Live E → Live E
  unfolding history_input
  record_history input result structured s = record s {
    log = record_input (history_input input result structured) s.log;
  }

  -- if resolved.IsAlias && contextID != "" { ContextStore.Set }
  abbrev pub keeping : ResolveResult → String → String → Live E → Live E
  keeping resolved agent context_id s =
      if resolved.is_alias && not (context_id == "")
      then record s {
        stores = record (s.stores) { contexts = Contexts.set agent context_id s.stores.contexts };
      }
      else s

  abbrev pub no_task_id : TaskState → Handled
  no_task_id state = handled none (
      some (
        errorf "agent returned non-terminal state %q without a task ID; cannot poll for completion"
          (text (state_name state) ∷ [])))

  abbrev pub unknown_state : TaskState → Handled
  unknown_state state = handled none (
      some (
        errorf
          "agent returned unrecognized task state %q — ensure the agent supports A2A protocol v1.0 or later"
          (text (state_name state) ∷ [])))

  abbrev pub still_running : Task → Handled
  still_running task = handled (some (of_task task)) (
      some (
        errorf "timeout waiting for task completion (state: %s)"
          (text (state_name task.status.state) ∷ [])))

  -- The end of a polling; without an error it has a task.
  abbrev pub after_polling :
      Task
      → ResolveResult
      → String
      → Option (Option Task × Option Error)
      → Live E
      → Option (Handled × Live E)
  after_polling sent resolved agent none s = none
  after_polling sent resolved agent (some (polled, some e)) s =
      some (handled (some (of_task (last_known sent polled))) (some e), s)
  after_polling sent resolved agent (some (polled, none)) s =
      let task = last_known sent polled in
      some (
        settled_late rendering task.status.state task (still_running task),
        keeping resolved agent task.context_id s,
      )

  abbrev pub polling_of :
      Task → ResolveResult → String → ℤ → Polling × E.World → Live E → Option (Handled × Live E)
  polling_of task resolved agent timeout (polling, world) s =
      after_polling task resolved agent
        (poll_task_completion sprintf polling.start timeout (show_duration timeout) polling.rounds)
        (record s { world = world })

  unfoldable pub handle_task_result :
      sdk.Client → Task → ResolveResult → String → ℤ → Live E → Option (Handled × Live E)
  unfolding settled settled_late is_pending poll_task_completion
  handle_task_result client task resolved agent timeout s =
      if is_pending task.status.state
      then (if task.id == ""
          then some (no_task_id task.status.state, keeping resolved agent task.context_id s)
          else polling_of task resolved agent timeout (poll client task.id s.world) s)
      else some (
        settled rendering task.status.state task (unknown_state task.status.state),
        keeping resolved agent task.context_id s,
      )

  abbrev pub recorded : SendMessageInput → Option (Handled × Live E) → Option (Handled × Live E)
  recorded input none = none
  recorded input (some (h, s)) = some (h, record_history input h.result h.structured s)

  unfoldable pub process_response :
      SendMessageInput → SendRequest E → SendMessageResult → Live E → Option (Handled × Live E)
  unfolding handle_task_result record_history format_message_response
  process_response input sr (task_result task) s = recorded input (
      handle_task_result sr.client task sr.resolved input.agent
        (effective_poll_timeout input.poll_timeout_seconds) s)
  process_response input sr (message_result msg) s =
      let structured = some (format_message_response msg) in
      some (
        handled structured none,
        record_history input none structured (keeping sr.resolved input.agent msg.context_id s),
      )
  process_response input sr unrecognized_result s = some (
    handled none (some (errorf "unrecognized response format: expected Task or Message" [])),
    record_history input none none s,
  )
