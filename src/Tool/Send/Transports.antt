-- ===== src/Tool/Send/Transports.antt =====
-- Which client is used after a retry on the direct transport, and what is never retried on the
-- streaming one.
use a2a_gateway_mcp.Prelude.{
  String, Bool, [], ◌∷◌, if◌then◌else◌, subst, sym, ◌≡◌, refl, ap, ◌∙◌, true, false, Option, none,
  some, ◌==◌, Bool-cases, inl, inr,
}
use a2a_gateway_mcp.GoMap
use a2a_gateway_mcp.Errors.{
  Error, Result, ok, err, errors_is, stream_timeout, stream_connection_timeout, text, error_text,
}
use a2a_gateway_mcp.History.Recorder.{RecordInput}
use a2a_gateway_mcp.Registry.Contexts.{ContextStore}
use a2a_gateway_mcp.Registry.Resolved.{ResolveResult}
use a2a_gateway_mcp.Tool.Input.{summarize_message}
use a2a_gateway_mcp.Tool.Stream.{StreamResult, consume_stream}
use a2a_gateway_mcp.Tool.Stream.Gathering.{new_state}
use a2a_gateway_mcp.A2a.{Task}
use a2a_gateway_mcp.Registry.Clients.{ClientResolver}
use a2a_gateway_mcp.Registry.Clients.Cache.{fresh}
use a2a_gateway_mcp.Tool.Background.{SendMessageResult, task_result, unrecognized_result}
use a2a_gateway_mcp.Tool.Poll.{poll_task_completion}
use a2a_gateway_mcp.Tool.Retry.{is_auth_error, resolve_client_with_auth_retry, retry_once}
use a2a_gateway_mcp.Tool.Send.{
  ℤ, Environment, SendMessageInput, Polling, SendRequest, Live, successful,
}
use a2a_gateway_mcp.Tool.Send.Answer.{
  extract_response_context_id, extract_response_task_id, extract_result_text, history_input,
  record_history, is_pending, recorded, process_response, after_polling,
}
use a2a_gateway_mcp.Tool.Send.Handle.{
  Progress, after_send, send_with, sent, send_direct, streamed, after_stream, streamed_with_retry,
  send_via_streaming,
}
use a2a_gateway_mcp.Tool.Send.Direct.{health_after, success_health}
use a2a_gateway_mcp.Tool.Send.Polled.{polled_task}
use a2a_gateway_mcp.Tool.Stream.Handling.{
  Handled, SendMessageOutput, call_error, conclude, handle_streaming_message, streaming_no_error,
}

module _ (E : Environment) where
  open E use {
    sdk, sprintf, rendering, show_duration, effective_poll_timeout, effective_stream_timeout, World,
    send_message, send_streaming_message, poll, record_input,
  }

  -- The time that a polling may take.
  abbrev timeout_of : SendMessageInput → ℤ
  timeout_of input = effective_poll_timeout input.poll_timeout_seconds

  after_retry :
      (input : SendMessageInput) (sr : SendRequest E) (task : Task)
      (out : Option Error × (ClientResolver sdk × (SendMessageResult × World))) (w : World)
      (polling : Polling) (w' : World) (s : Live E)
      → out.0 ≡ none
      → out.1.1 ≡ (task_result task, w)
      → is_pending task.status.state ≡ true
      → task.id == "" ≡ false
      → poll sr.client task.id w ≡ (polling, w')
      → after_send E input sr out s
        ≡ recorded E input (
            after_polling E task sr.resolved input.agent
              (poll_task_completion sprintf polling.start
                (timeout_of input)
                (show_duration (timeout_of input))
                polling.rounds)
              (record s {
                stores = successful E sr.resolved (record (s.stores) { clients = out.1.0 });
                world = w';
              }))
  unfolding process_response
  after_retry input sr task out w polling w' s no_error answer pending named polls =
      let live : Live E = record s {
        stores = successful E sr.resolved (record (s.stores) { clients = out.1.0 });
        world = w;
      } in
      let answered : out ≡ (none, (out.1.0, (task_result task, w))) =
        λ i. (no_error i, (out.1.0, answer i)) in
      ap (λ o. after_send E input sr o s) answered
      ∙ ap (recorded E input) (
          polled_task E sr.client task sr.resolved input.agent (timeout_of input) live polling w'
            pending named polls)

  -- When the cached client meets an error of authentication, and the new one is answered with a task
  -- that is not final, the cache holds the new client but the task is polled with the old one.
  pub polls_stale :
      (input : SendMessageInput) (sr : SendRequest E) (renewed : sdk.Client) (s : Live E)
      (e : Error) (task : Task) (w₁ w₂ w₃ : World) (polling : Polling)
      → GoMap.lookup sr.resolved.url s.stores.clients.clients ≡ some sr.client
      → fresh sdk s.stores.agents sr.resolved ≡ ok renewed
      → send_message sr.client sr.request s.world ≡ (err e, w₁)
      → is_auth_error e ≡ true
      → send_message renewed sr.request w₁ ≡ (ok (task_result task), w₂)
      → is_pending task.status.state ≡ true
      → task.id == "" ≡ false
      → poll sr.client task.id w₂ ≡ (polling, w₃)
      → (clients : ClientResolver sdk) × (GoMap.lookup sr.resolved.url clients.clients
          ≡ some renewed)
        × (send_direct E input sr s
            ≡ recorded E input (
                after_polling E task sr.resolved input.agent
                  (poll_task_completion sprintf polling.start
                    (timeout_of input)
                    (show_duration (timeout_of input))
                    polling.rounds)
                  (record s {
                    stores = successful E sr.resolved (record (s.stores) { clients = clients });
                    world = w₃;
                  })))
  unfolding send_direct
  polls_stale input sr renewed s e task w₁ w₂ w₃ polling cached made refused auth answered pending
        named polls =
      let fn = send_with E sr.request in
      let (counted, answer, held) =
        retry_once sdk fn s.stores.agents sr.resolved sr.client renewed s.stores.clients
          (unrecognized_result, s.world) cached made in
      let out =
        resolve_client_with_auth_retry sdk fn s.stores.agents sr.resolved s.stores.clients
          (unrecognized_result, s.world) in
      let first : fn sr.client (unrecognized_result, s.world)
          ≡ (some e, (unrecognized_result, w₁)) =
        ap (sent E) refused in
      let second : fn renewed (unrecognized_result, w₁) ≡ (none, (task_result task, w₂)) =
        ap (sent E) answered in
      (
        out.1.0,
        held ∙ rw (first, auth) refl,
        after_retry input sr task out w₂ polling w₃ s (counted ∙ rw (first, auth, second) refl)
            (answer ∙ rw (first, auth, second) refl) pending named polls,
      )

  -- The stream of a message, and what it leaves in the stores.
  abbrev stream_of : Progress → SendMessageInput → SendRequest E → Live E → Handled × Live E
  stream_of progress input sr s = streamed E progress input sr sr.client s

  stream_no_error :
      (progress : Progress) (input : SendMessageInput) (sr : SendRequest E) (s : Live E)
      → (stream_of progress input sr s).0.error ≡ none
  stream_no_error progress input sr s =
      let timeout = E.effective_stream_timeout input.poll_timeout_seconds in
      streaming_no_error E.rendering progress
        (E.send_streaming_message sr.client timeout sr.request s.world).0 sr.resolved input.agent
        (show_duration timeout) s.stores.contexts

  concluded :
      (progress : Progress) (input : SendMessageInput) (sr : SendRequest E) (s : Live E)
      (out : Handled × Live E)
      → out.1.stores.health ≡ s.stores.health
      → out.0.error ≡ none
      → let last = after_stream E input sr (streamed_with_retry E progress input sr out) in
        (last.1.stores.health ≡ health_after sr.resolved none s.stores.health)
        × (last.1.world ≡ out.1.world)
        × (last.1.stores.clients ≡ out.1.stores.clients)
        × (last.1.log
            ≡ record_input (history_input E input last.0.result last.0.structured) out.1.log)
        × (last.0 ≡ out.0)
  unfolding record_history
  concluded progress input sr s (h, s') p no_error = rw no_error (
    success_health E sr.resolved s'.stores ∙ ap (health_after sr.resolved none) p,
    refl,
    (elim (Bool-cases sr.resolved.is_alias) [ inl q ↦ rw q refl | inr q ↦ rw q refl ]),
    refl,
    refl,
  )

  -- What the history is told of a message: its agent, its text, and the rest.
  abbrev pub Noted :
      SendMessageInput → Option SendMessageOutput → String → Bool → RecordInput → Type 0
  Noted input structured response failed i =
      (i.alias ≡ input.agent)
      × (i.sent ≡ summarize_message input.message input.parts)
      × (i.context_id ≡ extract_response_context_id structured)
      × (i.task_id ≡ extract_response_task_id structured)
      × (i.response ≡ response)
      × (i.is_error ≡ failed)

  -- The text of a stream that failed after the given timeout.
  abbrev pub failure_shown : String → Error → String
  failure_shown timeout e =
      if errors_is stream_timeout e
      then sprintf "timeout waiting for streaming response to complete (timed out after %s)"
          (text timeout ∷ [])
      else if errors_is stream_connection_timeout e
      then sprintf "stream connection timed out after %s" (text timeout ∷ [])
      else error_text sprintf e

  -- The entry of a stream: with the text of its failure, as an error without an output, or with no
  -- text, and no error.
  abbrev pub NotedStream :
      SendMessageInput
      → String
      → Result StreamResult
      → Option SendMessageOutput
      → RecordInput
      → Type 0
  NotedStream input timeout (err e) structured i =
      (structured ≡ none) × Noted input none (failure_shown timeout e) true i
  NotedStream input timeout (ok r) structured i = Noted input structured "" false i

  shown-failure :
      (timeout : String) (e : Error) (b c : Bool)
      → errors_is stream_timeout e ≡ b
      → errors_is stream_connection_timeout e ≡ c
      → extract_result_text sprintf (some (call_error timeout e)) ≡ failure_shown timeout e
  unfolding extract_result_text
  shown-failure timeout e true c p q = rw p refl
  shown-failure timeout e false true p q = rw (p, q) refl
  shown-failure timeout e false false p q = rw (p, q) refl

  conclude-NotedStream :
      (input : SendMessageInput) (timeout : String) (resolved : ResolveResult) (agent : String)
      (store : ContextStore) (r : Result StreamResult)
      → let h = (conclude resolved agent timeout store r).0 in
        NotedStream input timeout r h.structured (history_input E input h.result h.structured)
  unfolding conclude history_input extract_result_text
  conclude-NotedStream input timeout resolved agent store (ok r) =
      (refl, refl, refl, refl, refl, refl)
  conclude-NotedStream input timeout resolved agent store (err e) = (
    refl,
    (
      refl,
      refl,
      refl,
      refl,
      shown-failure timeout e (errors_is stream_timeout e) (errors_is stream_connection_timeout e)
          refl refl,
      refl,
    ),
  )

  -- Whatever the stream comes to, an error of the connection or of authentication included, one stream
  -- is opened and no more, the cache of clients stays, the agent's health counts a success, and the
  -- history has one entry more: of a stream that failed, one that is an error, with the text of the
  -- failure and without identifiers, and of any other, one that is not, with no text of the answer.
  pub streaming_success :
      (progress : Progress) (input : SendMessageInput) (sr : SendRequest E) (s : Live E)
      → let timeout = effective_stream_timeout input.poll_timeout_seconds in
        let stream = send_streaming_message sr.client timeout sr.request s.world in
        let out = send_via_streaming E progress input sr s in
        (out.1.stores.health ≡ health_after sr.resolved none s.stores.health)
        × (out.1.world ≡ stream.1)
        × (out.1.stores.clients ≡ s.stores.clients)
        × ((i : RecordInput) × (out.1.log ≡ record_input i s.log)
            × NotedStream input
                (show_duration timeout)
                (consume_stream rendering stream.0 (new_state progress)).0
                out.0.structured
                i)
  unfolding send_via_streaming
  streaming_success progress input sr s =
      let timeout = effective_stream_timeout input.poll_timeout_seconds in
      let items = (send_streaming_message sr.client timeout sr.request s.world).0 in
      let first = stream_of progress input sr s in
      let no_error = stream_no_error progress input sr s in
      let (health, world, clients, log, same) = concluded progress input sr s first refl no_error in
      let result = (consume_stream rendering items (new_state progress)).0 in
      let out = (send_via_streaming E progress input sr s).0 in
      let told =
        conclude-NotedStream input (show_duration timeout) sr.resolved input.agent s.stores.contexts
          result in
      (
        health,
        world,
        clients,
        (
          history_input E input out.result out.structured,
          log,
          subst
              (λ h.
                NotedStream input (show_duration timeout) result h.structured
                  (history_input E input h.result h.structured))
              (sym same) (unfold handle_streaming_message in told),
        ),
      )
