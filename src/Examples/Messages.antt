-- ===== src/Examples/Messages.antt =====
-- Messages to an agent: their parts, their requests, the polling of their tasks and what they leave.
use a2a_gateway_mcp.Prelude.{
  arith, ◌≡◌, ◌≢◌, ◌↔◌, refl, true, Option, none, some, List, [], ◌∷◌, String, ◌==◌, if◌then◌else◌,
}
use a2a_gateway_mcp.Prelude.Int.{pos}
use a2a_gateway_mcp.GoMap
use a2a_gateway_mcp.Errors.{Error, ok, errors_is}
use a2a_gateway_mcp.A2a.{working, completed, Task, Message, text, url}
use a2a_gateway_mcp.Examples.Agents.{
  denied, running_polling, two_agents, two_stores, at_start, hello, target_a, hello_request, to_a,
}
use a2a_gateway_mcp.Examples.Sending.{plain, in_state, waits, waits-GoesOn, completed_ends}
use a2a_gateway_mcp.Registry.Agents
use a2a_gateway_mcp.Registry.CallerCards.{Metadata, inject_caller_card, new_caller_card_store}
use a2a_gateway_mcp.Registry.Clients
use a2a_gateway_mcp.Registry.Clients.{
  ClientResolver, create_client, find_card, http_client_for_resolved,
}
use a2a_gateway_mcp.Registry.Clients.Cache.{fresh}
use a2a_gateway_mcp.Registry.Http.{no_headers}
use a2a_gateway_mcp.History.Recorder.{RecordInput}
use a2a_gateway_mcp.Examples.Fixtures.{any_url, plain_clients, plain_rendering}
use a2a_gateway_mcp.Tool.Stream.{event, task_event, consume_stream}
use a2a_gateway_mcp.Tool.Stream.Gathering.{new_state}
use a2a_gateway_mcp.Tool.Retry.{is_auth_error, resolve_client_with_auth_retry}
use a2a_gateway_mcp.Tool.Send.{successful}
use a2a_gateway_mcp.Tool.Send.Conversation.{by_message, next-context}
use a2a_gateway_mcp.Tool.Send.Success.{Success, answer-Success}
use a2a_gateway_mcp.Tool.Send.Direct.{health_after, last_error, direct-Concluded}
use a2a_gateway_mcp.Tool.Send.Recording.{IsEntry}
use a2a_gateway_mcp.Tool.Send.Handle.{send_direct, send_via_streaming}
use a2a_gateway_mcp.Tool.Send.Transports.{polls_stale, NotedStream, streaming_success}
use a2a_gateway_mcp.Registry.Contexts
use a2a_gateway_mcp.Registry.Limits
use a2a_gateway_mcp.Tool.Session.{resolve_agent}
use a2a_gateway_mcp.Tool.Background.{message_result}
use a2a_gateway_mcp.Tool.Input.{Decoded, decoded, build_message_parts}
use a2a_gateway_mcp.Tool.Input.Conversion.{as_text, as_url, ConvertAll, build-ConvertAll}
use a2a_gateway_mcp.Tool.Poll.{Round, tick, poll_task_completion, poll_loop, ends_polling}
use a2a_gateway_mcp.Tool.Poll.Termination.{poll_returns}
use a2a_gateway_mcp.Tool.Send.{Live, SendRequest, build_send_request}
use a2a_gateway_mcp.Tool.Send.Answer.{
  is_pending, handle_task_result, process_response, record_history, recorded, after_polling,
}
use a2a_gateway_mcp.Tool.Send.Composition.{IsAdmitted, build-request}
use a2a_gateway_mcp.Tool.Send.Polled.{polled_as_answered}
use a2a_gateway_mcp.Tool.Stream.Handling.{Handled}

abbrev same_text : String → Decoded
same_text s = decoded s

build-ConvertAll_example :
    ((build_message_parts same_text "hi" (as_text "a" ∷ (as_url "https://b" ∷ []))
        ≡ ok (some (text "a") ∷ (some (url "https://b") ∷ [])))
      ↔ ConvertAll same_text
          (as_text "a" ∷ (as_url "https://b" ∷ []))
          (some (text "a") ∷ (some (url "https://b") ∷ [])))
    × ((build_message_parts same_text "hi" []
          ≡ ok (some (text "a") ∷ (some (url "https://b") ∷ [])))
        ↔ ((◌≢◌ {A = String} "hi" "")
            × (some (text "a") ∷ (some (url "https://b") ∷ []) ≡ some (text "hi") ∷ [])))
build-ConvertAll_example =
    build-ConvertAll same_text "hi" (as_text "a") (as_url "https://b" ∷ [])
      (some (text "a") ∷ (some (url "https://b") ∷ []))

-- Two ticks, two seconds apart, of a task that keeps running.
abbrev two_ticks : List Round
two_ticks = tick 2000000000 (ok (in_state working)) ∷ (tick 4000000000 (ok (in_state working)) ∷ [])

poll_returns_example :
    (r : Option Task × Option Error) × (poll_task_completion plain 0 (pos 3000000000) "3s" two_ticks
      ≡ some r)
poll_returns_example =
    poll_returns plain 0 3000000000 "3s" two_ticks (ground arith) (ground arith, (ground arith, tt))
      (ground arith)

built : (build_send_request two_agents 5 hello two_stores).0 ≡ ok to_a
unfolding build_send_request build_message_parts resolve_agent Agents.lookup Agents.connect
    Agents.new_agent_registry GoMap.lookup GoMap.insert GoMap.empty Limits.check_rate_limit
    Limits.new_rate_limiter_registry Clients.resolve Contexts.get Contexts.new_context_store
    inject_caller_card new_caller_card_store
built = refl

build-request_example :
    (◌≢◌ {A = String} "a" "")
    × (build_message_parts same_text "hello" [] ≡ ok (some (text "hello") ∷ []))
    × (resolve_agent any_url two_stores.agents "a" ≡ ok target_a)
    × (IsAdmitted two_agents 5 target_a two_stores)
    × (◌≡◌ {A = String} "" (Contexts.get "a" two_stores.contexts))
    × (◌≡◌ {A = String} "" "")
    × (◌≡◌ {A = Metadata} none (inject_caller_card two_stores.caller_cards none))
build-request_example = build-request two_agents 5 hello two_stores to_a built

working_pends : is_pending working ≡ true
unfolding is_pending
working_pends = refl

polled_as_answered_example :
    handle_task_result two_agents
      ("stale", no_headers)
      (in_state working)
      target_a
      "a"
      (pos 10)
      at_start
    ≡ handle_task_result two_agents
        ("stale", no_headers)
        (in_state completed)
        target_a
        "a"
        (pos 10)
        (record at_start { world = 1 })
polled_as_answered_example =
    polled_as_answered two_agents ("stale", no_headers) (in_state working) (in_state completed)
      target_a "a" (pos 10) at_start 0 6 waits [] 1 working_pends refl refl waits-GoesOn refl
      completed_ends

abbrev reply : Message
reply = record { context_id = "c-2"; parts = some (text "hello to you") ∷ [] }

-- The outcome of a handler that has returned, or what was there before.
abbrev handled_of : Option (Handled × Live two_agents) → Handled
handled_of none = record { result = none; structured = none; error = none }
handled_of (some (h, s)) = h

abbrev live_of : Option (Handled × Live two_agents) → Live two_agents
live_of none = at_start
live_of (some (h, s)) = s

abbrev reply_handled : Handled
reply_handled = handled_of (process_response two_agents hello to_a (message_result reply) at_start)

abbrev after_reply : Live two_agents
after_reply = live_of (process_response two_agents hello to_a (message_result reply) at_start)

replied :
    process_response two_agents hello to_a (message_result reply) at_start
    ≡ some (reply_handled, after_reply)
unfolding process_response
replied = refl

-- The next message, which goes on with the conversation.
abbrev next_to_a : SendRequest two_agents
next_to_a = record to_a {
  request = record hello_request {
    message = record { parts = some (text "hello") ∷ []; context_id = "c-2"; task_id = "" };
  };
}

next_built : (build_send_request two_agents 6 hello after_reply.stores).0 ≡ ok next_to_a
unfolding build_send_request build_message_parts resolve_agent Agents.lookup Agents.connect
    Agents.new_agent_registry GoMap.lookup GoMap.insert GoMap.empty Limits.check_rate_limit
    Limits.new_rate_limiter_registry Clients.resolve Contexts.get Contexts.set
    Contexts.new_context_store inject_caller_card new_caller_card_store process_response
    record_history
next_built = refl

next-context_example :
    ◌≡◌ {A = String} "c-2"
      (if "c-2" == "" then Contexts.get "a" at_start.stores.contexts else "c-2")
next-context_example =
    next-context two_agents 6 hello hello to_a next_to_a "c-2" (message_result reply) reply_handled
      at_start after_reply (by_message reply) refl replied refl refl refl next_built

reply_no_error : reply_handled.error ≡ none
unfolding process_response
reply_no_error = refl

answer-Success_example : Success two_agents reply_handled
answer-Success_example =
    answer-Success two_agents hello to_a (message_result reply) reply_handled at_start after_reply
      replied reply_no_error

pub cached : GoMap.lookup "https://a" two_stores.clients.clients ≡ some ("stale", no_headers)
unfolding GoMap.lookup GoMap.insert GoMap.empty
cached = refl

pub made : fresh plain_clients two_stores.agents target_a ≡ ok ("https://a", no_headers)
unfolding create_client find_card http_client_for_resolved Agents.list Agents.sort_by_alias
    Agents.connect Agents.new_agent_registry GoMap.insert GoMap.empty GoMap.entries GoMap.size
made = refl

abbrev sent_handled : Handled
sent_handled = handled_of (send_direct two_agents hello to_a at_start)

abbrev after_sending : Live two_agents
after_sending = live_of (send_direct two_agents hello to_a at_start)

direct : send_direct two_agents hello to_a at_start ≡ some (sent_handled, after_sending)
unfolding send_direct resolve_client_with_auth_retry Clients.resolve Clients.evict GoMap.lookup
    GoMap.insert GoMap.empty GoMap.delete create_client find_card http_client_for_resolved
    Agents.list Agents.sort_by_alias Agents.connect Agents.new_agent_registry GoMap.entries
    GoMap.size is_auth_error errors_is process_response handle_task_result is_pending
    poll_task_completion poll_loop ends_polling
direct = refl

direct-Concluded_example :
    (after_sending.stores.health
      ≡ health_after target_a
          (last_error two_agents to_a ("stale", no_headers) ("https://a", no_headers) 0)
          two_stores.health)
    × ((i : RecordInput) × (after_sending.log ≡ two_agents.record_input i [])
        × IsEntry two_agents hello sent_handled.structured i)
direct-Concluded_example =
    direct-Concluded two_agents hello to_a ("https://a", no_headers) sent_handled at_start
      after_sending cached made direct

refused_once : is_auth_error denied ≡ true
unfolding is_auth_error errors_is
refused_once = refl

polls_stale_example :
    (clients : ClientResolver plain_clients) × (GoMap.lookup "https://a" clients.clients
      ≡ some ("https://a", no_headers))
    × (send_direct two_agents hello to_a at_start
        ≡ recorded two_agents hello (
            after_polling two_agents
              (in_state working)
              target_a
              "a"
              (poll_task_completion plain 0 (pos 10) "10ns" running_polling.rounds)
              (record at_start {
                stores = successful two_agents target_a (record two_stores { clients = clients });
                world = 3;
              })))
polls_stale_example =
    polls_stale two_agents hello to_a ("https://a", no_headers) at_start denied (in_state working) 1
      2 3 running_polling cached made refl refused_once refl working_pends refl refl

streaming_success_example :
    ((send_via_streaming two_agents none hello to_a at_start).1.stores.health
      ≡ health_after target_a none two_stores.health)
    × ((send_via_streaming two_agents none hello to_a at_start).1.world ≡ 1)
    × ((send_via_streaming two_agents none hello to_a at_start).1.stores.clients
        ≡ two_stores.clients)
    × ((i : RecordInput) × ((send_via_streaming two_agents none hello to_a at_start).1.log ≡ i ∷ [])
        × NotedStream two_agents hello "10ns"
            (consume_stream plain_rendering
              (event (task_event (in_state completed)) ∷ [])
              (new_state none)).0
            (send_via_streaming two_agents none hello to_a at_start).0.structured
            i)
streaming_success_example = streaming_success two_agents none hello to_a at_start
