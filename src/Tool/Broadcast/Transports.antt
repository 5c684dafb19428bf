-- ===== src/Tool/Broadcast/Transports.antt =====
-- internal/tool/tool_broadcast.go: the two transports of a broadcast, streams with their retry and
-- direct sends.
use a2a_gateway_mcp.Prelude.{ℕ, ◌*◌, none, some, [], ◌∷◌, String, if◌then◌else◌}
use a2a_gateway_mcp.Prelude.Int.{pos}
use a2a_gateway_mcp.Errors.{Error, Result, ok, err, errorf, text, error_text}
use a2a_gateway_mcp.Registry.Clients.{ClientResolver, resolve, evict}
use a2a_gateway_mcp.Registry.Resolved.{ResolveResult}
use a2a_gateway_mcp.Tool.Background.{
  SendMessageResult, task_result, message_result, unrecognized_result,
}
use a2a_gateway_mcp.Tool.Parts.{extract_content_from_message_parts}
use a2a_gateway_mcp.Tool.Retry.{is_auth_error}
use a2a_gateway_mcp.Tool.Send.{Environment, SendMessageRequest, Live}
use a2a_gateway_mcp.Tool.Stream.{StreamResult, build_task_from_state, consume_stream}
use a2a_gateway_mcp.Tool.Stream.Gathering.{new_state}
use a2a_gateway_mcp.Tool.Broadcast.{
  BroadcastMessageInput, AgentOutcome, refused, answered, with_stores, handle_broadcast_task_result,
  record_broadcast_history, record_broadcast_health_outcome, told, successful, failing,
}

module _ (E : Environment) where
  open E use {
    limiting, sdk, decode_string, sprintf, state_name, rendering, World, send_message,
    send_streaming_message, record_input,
  }

  -- One more try with a new client after an error of authentication, if there is a client.
  abbrev pub again {ℓ} :
      {A : Type ℓ}
      → ResolveResult
      → (sdk.Client → Live E → Result A × Live E)
      → Error
      → Result sdk.Client × ClientResolver sdk
      → Live E
      → Result A × Live E
  again resolved call e (ok client, clients) s =
      call client (with_stores E (λ st. record st { clients = clients }) s)
  again resolved call e (err e', clients) s =
      (err e, with_stores E (λ st. record st { clients = clients }) s)

  abbrev pub with_retry {ℓ} :
      {A : Type ℓ}
      → ResolveResult
      → (sdk.Client → Live E → Result A × Live E)
      → Result A × Live E
      → Result A × Live E
  with_retry resolved call (ok a, s) = (ok a, s)
  with_retry resolved call (err e, s) =
      if is_auth_error e
      then again resolved call e
          (resolve sdk s.stores.agents resolved (evict sdk resolved.url s.stores.clients)) s
      else (err e, s)

  -- The stream of a client, consumed without notifications.
  abbrev pub streamed : ℕ → SendMessageRequest → sdk.Client → Live E → Result StreamResult × Live E
  streamed timeout request client s =
      let (events, w) =
        send_streaming_message client (pos (timeout * 1000000000)) request s.world in
      ((consume_stream rendering events (new_state none)).0, record s { world = w })

  abbrev pub of_stream : StreamResult → AgentOutcome
  of_stream r = elim r.task [
    | some task ↦ handle_broadcast_task_result E task
    | none ↦ elim r.message [
      | some msg ↦ answered (extract_content_from_message_parts rendering msg.parts) msg
      | none ↦
          if r.terminated_by_status
          then handle_broadcast_task_result E (build_task_from_state r.state)
          else refused "error" "no terminal event received"
    ]
  ]

  -- A failed stream is classified by its text alone.
  abbrev pub after_stream : String → Result StreamResult × Live E → AgentOutcome × Live E
  after_stream alias (err e, s) = (
    refused "error" (error_text sprintf e),
    failing E alias (errorf "%s" (text (error_text sprintf e) ∷ [])) s,
  )
  after_stream alias (ok r, s) = (of_stream r, successful E alias s)

  unfoldable pub broadcast_via_streaming :
      ℕ
      → sdk.Client
      → SendMessageRequest
      → String
      → BroadcastMessageInput
      → ResolveResult
      → Live E
      → AgentOutcome × Live E
  unfolding handle_broadcast_task_result record_broadcast_history record_broadcast_health_outcome
      consume_stream build_task_from_state resolve evict
  broadcast_via_streaming timeout client request alias input resolved s = told E alias input (
      after_stream alias
        (with_retry resolved (streamed timeout request) (streamed timeout request client s)))

  abbrev pub sent : SendMessageRequest → sdk.Client → Live E → Result SendMessageResult × Live E
  sent request client s =
      let (r, w) = send_message client request s.world in (r, record s { world = w })

  abbrev pub of_answer : SendMessageResult → AgentOutcome
  of_answer (message_result msg) =
      answered (extract_content_from_message_parts rendering msg.parts) msg
  of_answer (task_result task) = handle_broadcast_task_result E task
  of_answer unrecognized_result = refused "error" "unrecognized response format"

  abbrev pub after_send : String → Result SendMessageResult × Live E → AgentOutcome × Live E
  after_send alias (err e, s) = (refused "error" (error_text sprintf e), failing E alias e s)
  after_send alias (ok r, s) = (of_answer r, successful E alias s)

  unfoldable pub broadcast_direct :
      sdk.Client
      → SendMessageRequest
      → String
      → BroadcastMessageInput
      → ResolveResult
      → Live E
      → AgentOutcome × Live E
  unfolding handle_broadcast_task_result record_broadcast_history record_broadcast_health_outcome
      resolve evict
  broadcast_direct client request alias input resolved s =
      told E alias input
        (after_send alias (with_retry resolved (sent request) (sent request client s)))
