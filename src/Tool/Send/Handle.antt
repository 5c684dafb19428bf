-- ===== src/Tool/Send/Handle.antt =====
-- internal/tool/tool_send.go: Handle, the transports of a message and the background part of an
-- asynchronous send, which runs at a time of its own.
use a2a_gateway_mcp.Prelude.{ℕ, Bool, false, Option, none, some, List, [], String, if◌then◌else◌}
use a2a_gateway_mcp.Errors.{Error, Result, ok, err}
use a2a_gateway_mcp.A2a.{TaskState}
use a2a_gateway_mcp.Registry.Clients.{ClientResolver, resolve, evict}
use a2a_gateway_mcp.Tool.Background.{
  SendMessageResult, task_result, message_result, unrecognized_result, background_send_and_poll,
}
use a2a_gateway_mcp.Tool.Parts.{handle_a2a_error}
use a2a_gateway_mcp.Tool.Retry.{needs_retry, resolve_client_with_auth_retry}
use a2a_gateway_mcp.Tool.Send.{
  Environment, SendMessageInput, SendMessageRequest, Polling, SendRequest, Stores, Live,
  build_send_request, record_health_outcome, successful,
}
use a2a_gateway_mcp.Tool.Send.Answer.{handled, record_history, process_response}
use a2a_gateway_mcp.Tool.Session.{supports_streaming}
use a2a_gateway_mcp.Tool.Stream.{is_terminal_or_interrupted}
use a2a_gateway_mcp.Tool.Stream.Handling.{Handled, handle_streaming_message}

-- The token of a request that wants notifications of the progress, or none of them.
abbrev pub Progress : Type 0
Progress = Option (List (TaskState × String))

module _ (E : Environment) where
  open E use {
    sdk, sprintf, state_name, show_duration, rendering, effective_poll_timeout,
    effective_stream_timeout, World, send_message, send_streaming_message, poll,
  }

  abbrev pub sent : Result SendMessageResult × World → Option Error × (SendMessageResult × World)
  sent (ok response, w) = (none, (response, w))
  sent (err e, w) = (some e, (unrecognized_result, w))

  -- The call that is retried; a nil response is handled as one that is not recognized.
  abbrev pub send_with :
      SendMessageRequest
      → sdk.Client
      → SendMessageResult × World
      → Option Error × (SendMessageResult × World)
  send_with request client held = sent (send_message client request held.1)

  abbrev pub after_send :
      SendMessageInput
      → SendRequest E
      → Option Error × (ClientResolver sdk × (SendMessageResult × World))
      → Live E
      → Option (Handled × Live E)
  after_send input sr (some e, (clients, (response, w))) s =
      let stores =
        record_health_outcome E sr.resolved e (record (s.stores) { clients = clients }) in
      some (
        handled none (some (handle_a2a_error e)),
        record_history E input none none (record s { stores = stores; world = w }),
      )
  after_send input sr (none, (clients, (response, w))) s =
      let stores = successful E sr.resolved (record (s.stores) { clients = clients }) in
      process_response E input sr response (record s { stores = stores; world = w })

  unfoldable pub send_direct : SendMessageInput → SendRequest E → Live E → Option (Handled × Live E)
  unfolding resolve_client_with_auth_retry record_health_outcome process_response record_history
      handle_a2a_error
  send_direct input sr s =
      after_send input sr
        (resolve_client_with_auth_retry sdk (send_with sr.request) s.stores.agents sr.resolved
          s.stores.clients (unrecognized_result, s.world))
        s

  -- handleStreamingMessage with a client.
  abbrev pub streamed :
      Progress → SendMessageInput → SendRequest E → sdk.Client → Live E → Handled × Live E
  streamed progress input sr client s =
      let timeout = effective_stream_timeout input.poll_timeout_seconds in
      let (events, w) = send_streaming_message client timeout sr.request s.world in
      let (h, store) =
        handle_streaming_message rendering progress events sr.resolved input.agent
          (show_duration timeout) s.stores.contexts in
      (h, record s { stores = record (s.stores) { contexts = store }; world = w })

  abbrev pub streamed_again :
      Progress
      → SendMessageInput
      → SendRequest E
      → Handled
      → Result sdk.Client × ClientResolver sdk
      → Live E
      → Handled × Live E
  streamed_again progress input sr h (err e, clients) s =
      (h, record s { stores = record (s.stores) { clients = clients } })
  streamed_again progress input sr h (ok client, clients) s =
      streamed progress input sr client
        (record s { stores = record (s.stores) { clients = clients } })

  abbrev pub streamed_with_retry :
      Progress → SendMessageInput → SendRequest E → Handled × Live E → Handled × Live E
  streamed_with_retry progress input sr (h, s) =
      if needs_retry h.error
      then streamed_again progress input sr h
          (resolve sdk s.stores.agents sr.resolved (evict sdk sr.resolved.url s.stores.clients)) s
      else (h, s)

  abbrev pub after_stream : SendMessageInput → SendRequest E → Handled × Live E → Handled × Live E
  after_stream input sr (h, s) = elim h.error [
    | some e ↦ (
      handled none (some e),
      record_history E input none none
          (record s { stores = record_health_outcome E sr.resolved e s.stores }),
    )
    | none ↦ (
      h,
      record_history E input h.result h.structured
          (record s { stores = successful E sr.resolved s.stores }),
    )
  ]

  unfoldable pub send_via_streaming :
      Progress → SendMessageInput → SendRequest E → Live E → Handled × Live E
  unfolding handle_streaming_message resolve evict record_health_outcome record_history
  send_via_streaming progress input sr s =
      after_stream input sr
        (streamed_with_retry progress input sr (streamed progress input sr sr.client s))

  -- The answer at once; the background part is a step of its own.
  unfoldable pub send_async : SendMessageInput → Handled
  send_async input =
      handled
        (some (record {
          message = none;
          task = none;
          async = some (record { alias = input.agent; status = "dispatched"; error = "" });
        }))
        none

  -- The polling, if the answer is a task that asks for one.
  abbrev pub background_polling : sdk.Client → Result SendMessageResult → World → Polling × World
  background_polling client (err e) w = (record { start = 0; rounds = [] }, w)
  background_polling client (ok (message_result msg)) w = (record { start = 0; rounds = [] }, w)
  background_polling client (ok unrecognized_result) w = (record { start = 0; rounds = [] }, w)
  background_polling client (ok (task_result task)) w =
      if is_terminal_or_interrupted task.status.state
      then (record { start = 0; rounds = [] }, w)
      else poll client task.id w

  -- The deposit is at the time `now`.
  unfoldable pub run_in_background : ℕ → SendMessageInput → SendRequest E → Live E → Option (Live E)
  unfolding background_send_and_poll
  run_in_background now input sr s =
      let (response, w) = send_message sr.client sr.request s.world in
      let (polling, w') = background_polling sr.client response w in
      elim (background_send_and_poll state_name sprintf polling.start (effective_poll_timeout none)
        (show_duration (effective_poll_timeout none)) polling.rounds now input.agent response
        s.stores.inbox) [
          | none ↦ none
          | some inbox ↦
              some (record s { stores = record (s.stores) { inbox = inbox }; world = w' })
        ]

  abbrev pub is_async : Option Bool → Bool
  is_async none = false
  is_async (some b) = b

  abbrev pub route :
      Progress
      → SendMessageInput
      → Result (SendRequest E) × Stores E
      → Live E
      → Option (Handled × Live E)
  route progress input (err e, stores) s =
      some (handled none (some e), record s { stores = stores })
  route progress input (ok sr, stores) s =
      let s' : Live E = record s { stores = stores } in
      if is_async input.async
      then some (send_async input, s')
      else if supports_streaming stores.agents sr.resolved
      then some (send_via_streaming progress input sr s')
      else send_direct input sr s'

  unfoldable pub handle : ℕ → Progress → SendMessageInput → Live E → Option (Handled × Live E)
  unfolding build_send_request send_async send_via_streaming send_direct supports_streaming
  handle now progress input s = route progress input (build_send_request E now input s.stores) s
