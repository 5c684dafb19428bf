-- ===== src/Tool/Stream.antt =====
-- internal/tool/helpers.go: the consumption of a stream of events. The iterator is the list of what it
-- yields, an event or an error; a stream that does not end by itself ends with the error of its
-- context. The callback for progress is the list of the notifications that it was given; it cannot
-- fail the stream, since emitProgress recovers.
pub mod Gathering
pub mod Outcome
pub mod Handling
use a2a_gateway_mcp.Prelude.{
  ◌≡◌, Bool, true, false, not, ◌&&◌, Option, none, some, List, [], ◌∷◌, ◌++◌, String, ◌==◌,
  if◌then◌else◌, map,
}
use a2a_gateway_mcp.Errors.{
  Error, Result, ok, err, errorf, wrapf, foreign, Target, errors_is, deadline_exceeded,
  stream_timeout, stream_connection_timeout,
}
use a2a_gateway_mcp.A2a.{
  TaskState, submitted, working, completed, failed, canceled, input_required, auth_required,
  rejected, other, Message, TaskStatus, Artifact, Task,
}
use a2a_gateway_mcp.Registry.Contexts
use a2a_gateway_mcp.Registry.Contexts.{ContextStore}
use a2a_gateway_mcp.Registry.Resolved.{ResolveResult}
use a2a_gateway_mcp.Tool.Parts.{Rendering, extract_status_message_text}

unfoldable pub is_terminal_or_interrupted : TaskState → Bool
is_terminal_or_interrupted completed = true
is_terminal_or_interrupted failed = true
is_terminal_or_interrupted canceled = true
is_terminal_or_interrupted input_required = true
is_terminal_or_interrupted auth_required = true
is_terminal_or_interrupted rejected = true
is_terminal_or_interrupted submitted = false
is_terminal_or_interrupted working = false
is_terminal_or_interrupted (other s) = false

-- TaskInfo of an update
pub record TaskInfo : Type 0 where
  pub task_id : String
  pub context_id : String

pub data Event : Type 0 where
  task_event : Task → Event
  message_event : Message → Event
  status_update : TaskInfo → TaskStatus → Event
  artifact_update : TaskInfo → Option Artifact → Event
  unrecognized_event : Event

-- What the iterator yields.
pub data Item : Type 0 where
  event : Event → Item
  failure : Error → Item

pub record StreamState : Type 0 where
  pub artifacts : List (Option Artifact)
  pub last_status : Option TaskStatus
  pub task_id : String
  pub context_id : String
  pub received_events : Bool
  -- nil, or the notifications so far
  pub progress : Option (List (TaskState × String))

pub record StreamResult : Type 0 where
  pub task : Option Task
  pub message : Option Message
  pub terminated_by_status : Bool
  pub state : StreamState

-- The zero value of a status has the empty state.
abbrev pub zero_status : TaskStatus
zero_status = record { state = other ""; message = none }

abbrev status_or_zero : Option TaskStatus → TaskStatus
status_or_zero none = zero_status
status_or_zero (some status) = status

unfoldable pub build_task_from_state : StreamState → Task
build_task_from_state state = record {
  id = state.task_id;
  context_id = state.context_id;
  status = status_or_zero state.last_status;
  artifacts = state.artifacts;
}

abbrev only : (Target → Bool) → String → Error
only t message = foreign t message

abbrev is_stream_timeout : Target → Bool
is_stream_timeout stream_timeout = true
is_stream_timeout _ = false

abbrev is_stream_connection_timeout : Target → Bool
is_stream_connection_timeout stream_connection_timeout = true
is_stream_connection_timeout _ = false

abbrev pub err_stream_timeout : Error
err_stream_timeout = foreign is_stream_timeout "stream timeout"

abbrev pub err_stream_connection_timeout : Error
err_stream_connection_timeout = foreign is_stream_connection_timeout "stream connection timeout"

abbrev pub stream_ended : Error
stream_ended = errorf "stream ended without terminal event" []

-- The error of the iterator, by whether an event came before it.
unfoldable pub stream_failure : Bool → Error → Error
stream_failure received e =
    if errors_is deadline_exceeded e
    then (if received then err_stream_timeout else err_stream_connection_timeout)
    else if received
    then wrapf "stream interrupted: %w" [] e
    else wrapf "stream connection failed: %w" [] e

abbrev pub received : StreamState → StreamState
received state = record state { received_events = true }

-- The identifiers of the first update that has them stay.
abbrev pub identified : TaskInfo → StreamState → StreamState
identified info state = record state {
  task_id = if state.task_id == "" then info.task_id else state.task_id;
  context_id =
      if state.context_id == "" && not (info.context_id == "")
      then info.context_id
      else state.context_id;
}

module _ (X : Rendering) where
  abbrev message_text : Option Message → String
  message_text none = ""
  message_text (some msg) = extract_status_message_text X msg

  abbrev notified :
      TaskStatus → Option (List (TaskState × String)) → Option (List (TaskState × String))
  notified status none = none
  notified status (some ns) = some (ns ++ (status.state, message_text status.message) ∷ [])

  -- The state after a status update, before a notification.
  abbrev pub with_status : TaskInfo → TaskStatus → StreamState → StreamState
  with_status info status state = record (identified info (received state)) {
    last_status = some status;
  }

  abbrev pub with_artifact : TaskInfo → Option Artifact → StreamState → StreamState
  with_artifact info artifact state =
      let s = identified info (received state) in
      record s { artifacts = s.artifacts ++ artifact ∷ [] }

  abbrev pub notify : TaskStatus → StreamState → StreamState
  notify status state = record state { progress = notified status state.progress }

  -- The state is changed in place: it is returned beside the result.
  unfoldable pub consume_stream : List Item → StreamState → Result StreamResult × StreamState
  unfolding is_terminal_or_interrupted stream_failure
  consume_stream [] state = (err stream_ended, state)
  consume_stream (failure e ∷ items) state = (err (stream_failure state.received_events e), state)
  consume_stream (event (task_event t) ∷ items) state = (
    ok (record {
      task = some t;
      message = none;
      terminated_by_status = false;
      state = received state;
    }),
    received state,
  )
  consume_stream (event (message_event m) ∷ items) state = (
    ok (record {
      task = none;
      message = some m;
      terminated_by_status = false;
      state = received state;
    }),
    received state,
  )
  consume_stream (event (status_update info status) ∷ items) state =
      let s = with_status info status state in
      let rest = consume_stream items (notify status s) in
      if is_terminal_or_interrupted status.state
      then (ok (record { task = none; message = none; terminated_by_status = true; state = s }), s)
      else rest
  consume_stream (event (artifact_update info artifact) ∷ items) state =
      consume_stream items (with_artifact info artifact state)
  consume_stream (event unrecognized_event ∷ items) state = consume_stream items (received state)
