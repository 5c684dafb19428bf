-- ===== src/Tool/Background.antt =====
-- internal/tool/tool_send.go: the background part of an asynchronous send. The answer of SendMessage
-- and the rounds of the polling are arguments, and so are the SDK's name of a state and the formatting
-- of an error. `none` says that the polling still waits.
pub mod Effects
use a2a_gateway_mcp.Prelude.{ℕ, Option, none, some, List, String, if◌then◌else◌}
use a2a_gateway_mcp.Prelude.Int.{ℤ}
use a2a_gateway_mcp.Errors.{Error, Result, ok, err, Arg, error_text}
use a2a_gateway_mcp.A2a.{TaskState, Task, Message}
use a2a_gateway_mcp.Registry.Inbox.{InboxEntry, MemoryInbox, deposit}
use a2a_gateway_mcp.Tool.Poll.{Round, poll_task_completion}
use a2a_gateway_mcp.Tool.Stream.{is_terminal_or_interrupted}

-- What SendMessage returns.
pub data SendMessageResult : Type 0 where
  task_result : Task → SendMessageResult
  message_result : Message → SendMessageResult
  unrecognized_result : SendMessageResult

module _ (state_name : TaskState → String) (sprintf : String → List Arg → String) where
  unfoldable pub entry_from_task : String → Task → InboxEntry
  entry_from_task alias task = record {
    alias = alias;
    task_id = task.id;
    context_id = task.context_id;
    state = state_name task.status.state;
    timestamp = 0;
    task = some task;
    message = none;
    error = "";
  }

  unfoldable pub entry_from_message : String → Message → InboxEntry
  entry_from_message alias msg = record {
    alias = alias;
    task_id = "";
    context_id = msg.context_id;
    state = "completed";
    timestamp = 0;
    task = none;
    message = some msg;
    error = "";
  }

  abbrev pub error_entry : String → Error → InboxEntry
  error_entry alias e = record {
    alias = alias;
    task_id = "";
    context_id = "";
    state = "error";
    timestamp = 0;
    task = none;
    message = none;
    error = error_text sprintf e;
  }

  abbrev task_or : Task → Option Task → Task
  task_or sent none = sent
  task_or sent (some polled) = polled

  -- The entry of a polling that has ended; without an error the polled task is there.
  abbrev polled_entry : String → Task → Option Task → Option Error → InboxEntry
  polled_entry alias sent polled (some e) = record (entry_from_task alias (task_or sent polled)) {
    error = error_text sprintf e;
  }
  polled_entry alias sent polled none = entry_from_task alias (task_or sent polled)

  abbrev after_polling : String → Task → Option (Option Task × Option Error) → Option InboxEntry
  after_polling alias sent none = none
  after_polling alias sent (some (polled, e)) = some (polled_entry alias sent polled e)

  -- The entry that is deposited at the end; nothing is, for an answer that is not recognized.
  abbrev entry_for :
      ℕ → ℤ → String → List Round → String → Result SendMessageResult → Option (Option InboxEntry)
  entry_for start timeout shown rounds alias (err e) = some (some (error_entry alias e))
  entry_for start timeout shown rounds alias (ok (message_result msg)) =
      some (some (entry_from_message alias msg))
  entry_for start timeout shown rounds alias (ok unrecognized_result) = some none
  entry_for start timeout shown rounds alias (ok (task_result task)) =
      if is_terminal_or_interrupted task.status.state
      then some (some (entry_from_task alias task))
      else elim (after_polling alias task
          (poll_task_completion sprintf start timeout shown rounds)) [
            | none ↦ none
            | some e ↦ some (some e)
          ]

  abbrev deposited : ℕ → Option (Option InboxEntry) → MemoryInbox → Option MemoryInbox
  deposited now none m = none
  deposited now (some none) m = some m
  deposited now (some (some e)) m = some (deposit now e m)

  unfoldable pub background_send_and_poll :
      ℕ
      → ℤ
      → String
      → List Round
      → ℕ
      → String
      → Result SendMessageResult
      → MemoryInbox
      → Option MemoryInbox
  unfolding entry_from_task entry_from_message is_terminal_or_interrupted poll_task_completion
  background_send_and_poll start timeout shown rounds now alias response m =
      deposited now (entry_for start timeout shown rounds alias response) m
