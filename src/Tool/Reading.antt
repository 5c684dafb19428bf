-- ===== src/Tool/Reading.antt =====
-- internal/tool/tool_inbox.go and internal/tool/tool_history.go: the tools that show the inbox and
-- the history. `none` is a run-time panic: of the inbox's Pop, or of a call on the nil backend that a
-- server without history has. The formatting of a time is a parameter.
pub mod Effects
pub mod Lost
use a2a_gateway_mcp.Prelude.{
  ℕ, ◌-◌, Bool, true, false, Option, none, some, List, [], ◌∷◌, String, ◌==◌, if◌then◌else◌, map,
  length, drop, ltb,
}
use a2a_gateway_mcp.Prelude.Int.{ℤ, pos, negsuc}
use a2a_gateway_mcp.Errors.{Error, Result, ok, err, errorf, text, Formatted}
use a2a_gateway_mcp.History.Entries.{Entry}
use a2a_gateway_mcp.History.Memory
use a2a_gateway_mcp.History.Memory.{MemoryBackend}
use a2a_gateway_mcp.Registry.Agents
use a2a_gateway_mcp.Registry.Agents.{AgentRegistry, RegisteredAgent}
use a2a_gateway_mcp.Registry.Inbox.{InboxEntry, InboxPopOptions, MemoryInbox, peek, pop}
use a2a_gateway_mcp.Tool.Stream.Handling.{SendMessageOutput}

pub record InboxSummary : Type 0 where
  pub alias : String
  pub task_id : String
  pub context_id : String
  pub state : String
  pub timestamp : String

abbrev pub summary_of : (ℕ → String) → InboxEntry → InboxSummary
summary_of format e = record {
  alias = e.alias;
  task_id = e.task_id;
  context_id = e.context_id;
  state = e.state;
  timestamp = format e.timestamp;
}

-- CheckInboxTool.Handle
unfoldable pub check_inbox :
    (ℕ → String) → ℕ → String → MemoryInbox → List InboxSummary × MemoryInbox
check_inbox format now alias m =
    let (entries, m') = peek now alias m in (map (summary_of format) entries, m')

pub record ReadInboxInput : Type 0 where
  pub alias : String
  pub length : Option ℤ
  pub latest : Bool

abbrev pub message_of : InboxEntry → SendMessageOutput
message_of e = record { message = e.message; task = e.task; async = none }

abbrev pub messages_of : Option (List InboxEntry) → Option (Result (List SendMessageOutput))
messages_of none = none
messages_of (some entries) = some (ok (map message_of entries))

abbrev pub pop_options : ReadInboxInput → InboxPopOptions
pop_options input = record { alias = input.alias; length = input.length; latest = input.latest }

-- ReadInboxTool.Handle
unfoldable pub read_inbox :
    ℕ → ReadInboxInput → MemoryInbox → Option (Result (List SendMessageOutput)) × MemoryInbox
read_inbox now input m =
    if input.alias == ""
    then (some (err (errorf "alias is required" [])), m)
    else let (entries, m') = pop now (pop_options input) m in (messages_of entries, m')

-- entries[len(entries)-limit:], if there are more than a positive limit
abbrev pub most_recent : Option ℤ → List Entry → List Entry
most_recent none entries = entries
most_recent (some (negsuc n)) entries = entries
most_recent (some (pos n)) entries =
    if ltb 0 n
    then (if ltb n (length entries) then drop (length entries - n) entries else entries)
    else entries

abbrev pub listed : String → Option ℤ → Option MemoryBackend → Option (Result (List Entry))
listed agent limit none = none
listed agent limit (some backend) = some (ok (most_recent limit (Memory.list agent backend)))

-- GetHistoryTool.Handle
unfoldable pub get_history :
    String → Option ℤ → AgentRegistry → Option MemoryBackend → Option (Result (List Entry))
get_history agent limit agents backend =
    if agent == ""
    then some (err (errorf "agent alias is required" []))
    else elim (Agents.lookup agent agents) [
      | none ↦ some (err (errorf "agent not found in registry" []))
      | some entry ↦ listed agent limit backend
    ]

abbrev pub cleared :
    String → Option MemoryBackend → Option (Result Formatted × Option MemoryBackend)
cleared agent none = none
cleared agent (some backend) = some (
  ok (record { format = "Cleared history for agent %q"; args = text agent ∷ [] }),
  some (Memory.clear agent backend),
)

-- ClearHistoryTool.Handle
unfoldable pub clear_history :
    String → AgentRegistry → Option MemoryBackend → Option (Result Formatted × Option MemoryBackend)
clear_history agent agents backend =
    if agent == ""
    then some (err (errorf "agent alias is required" []), backend)
    else elim (Agents.lookup agent agents) [
      | none ↦ some (err (errorf "agent not found in registry" []), backend)
      | some entry ↦ cleared agent backend
    ]
