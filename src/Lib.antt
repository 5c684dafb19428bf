-- ===== src/Lib.antt =====
-- The verification library of a2a-gateway-mcp: a server of the Model Context Protocol through which a
-- client talks to agents of the A2A protocol, and a directory service for agent cards.
--
-- The parts and how they interact. The gateway keeps its session in stores, each behind a mutex of its
-- own; the handlers of the tools call the stores, one call after the other. A store is a record here,
-- an operation a function from the state before to the result and the state after, and a handler the
-- composition of its calls in the code's order. Since each operation holds its mutex throughout, what
-- goroutines do to one store is a sequence of calls: a run is a list of them.
--
--   GoMap          Go's map[string]V, in which the stores keep their entries
--   Errors, A2a    error values; the data of the A2A protocol
--   Validate       internal/validate/validate.go
--   Registry       registry/: Agents (agent_registry.go), Contexts (context_store.go), CallerCards
--                  (caller_card.go, caller_card_store.go), Limits (rate_limiter.go), Clients
--                  (client_resolver.go), Fetch (fetch_agent_card.go), Http (http.go), Resolved
--                  (resolve_result.go), Inbox (inbox.go)
--   Health         health/: Tracker (health_tracker.go), Classify (health_classify.go), Ping (ping.go)
--   History        history/: Entries (history_backend.go), Memory (history_memory.go), File
--                  (history_file.go), Recorder (history_record.go)
--   Directory      directory/: Handler (handler.go, directory.go), Cursor (handler.go), Cards
--                  (registry.go), Resolver (resolver.go)
--   Tool           internal/tool/: Session (tool.go, and the adapters of gateway/tools.go), Connect
--                  (tool_connect.go), Disconnect (tool_disconnect.go), Parts and Stream (helpers.go), Retry
--                  (auth_retry.go), Input, Poll, Background and Send (tool_send.go), Broadcast
--                  (tool_broadcast.go), Discover (tool_discover.go, and the directory's adapter of
--                  gateway/tools.go), Ping (tool_ping.go, and the strategy of health/ping.go), Reading
--                  (tool_inbox.go, tool_history.go), Tasks (tool_get_task.go, tool_cancel_task.go),
--                  Overview (tool_list.go, tool_caller_card.go, tool_card.go)
--   Gateway        gateway/server.go: Config (the options), Server (the set-up and the timeouts)
--   Examples       concrete inputs for the theorems
--
-- Operations have the names of the code in snake case: `Registry.Inbox.pop` is `MemoryInbox.Pop`,
-- `Tool.Connect.handle` is `ConnectAgentTool.Handle`. A Go `int` that may be negative is a ℤ of
-- Prelude/Int, without the bound of 64 bits, but for the product of seconds and nanoseconds in
-- Gateway/Server; a time is a number of nanoseconds that a call is given. A run-time panic, of a slice
-- expression or of a call on a nil backend, is `none`.
--
-- Parameters stand for code outside the repository: the token buckets of golang.org/x/time/rate,
-- the clients of the A2A SDK, net/url, encoding/base64, encoding/json, fmt, strconv, os with
-- path/filepath, and the case mapping of strings. What is assumed of them is written at their
-- records: that a limiter keeps its settings, that encoding and decoding of a cursor are inverse,
-- that a file system which works lets files be written once their directory is made and keeps what
-- is written to it, that a header that is set is read back and the others stay, and, of the answer
-- that the self-hosted directory writes, that it is decoded to what was encoded. Agents are a
-- world: a call of the SDK's client maps one to an answer and the next.
--
-- A stream of events is the list of what the SDK's iterator yields.
--
-- Fuel: only the clients of Directory/Handler/Pages and Tool/Discover/Paging, which follow cursors,
-- have it; one request more than there are cards is enough. The polling of a task recurs on the list
-- of what its clock and the agent do.
--
-- Not modelled: the MCP and HTTP servers and other I/O, with the registration of the tools and the
-- operations of gateway/operations.go, which call one handler each; the commands and mock servers;
-- the embedded schemas and those of inputs and outputs. Each goroutine of a broadcast is one step:
-- those that it waits for come in any order, and those that it only starts in the turns of a
-- schedule, between its aliases or later; they are not interleaved within an agent. The tools of
-- the history are modelled over the backend in memory.
pub mod Prelude
pub mod GoMap
pub mod Errors
pub mod A2a
pub mod Health
pub mod Registry
pub mod History
pub mod Validate
pub mod Directory
pub mod Tool
pub mod Gateway
pub mod Examples
