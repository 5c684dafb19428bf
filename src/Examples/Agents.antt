-- ===== src/Examples/Agents.antt =====
-- Two agents as a world that counts the calls: the client made for "stale" is refused, every other one
-- is answered with a task that is still running and completes when it is polled the third time.
use a2a_gateway_mcp.Prelude.{
  ℕ, suc, Bool, true, false, none, some, List, [], ◌∷◌, ◌++◌, ◌==◌, if◌then◌else◌,
}
use a2a_gateway_mcp.Prelude.Int.{pos}
use a2a_gateway_mcp.GoMap
use a2a_gateway_mcp.Errors.{Error, ok, err, foreign, Target, unauthorized}
use a2a_gateway_mcp.A2a.{working, completed, text}
use a2a_gateway_mcp.Health.Tracker
use a2a_gateway_mcp.History.Recorder.{RecordInput}
use a2a_gateway_mcp.Registry.Agents
use a2a_gateway_mcp.Registry.Agents.{new_agent_registry}
use a2a_gateway_mcp.Registry.CallerCards.{new_caller_card_store}
use a2a_gateway_mcp.Registry.Contexts
use a2a_gateway_mcp.Registry.Http.{no_headers}
use a2a_gateway_mcp.Registry.Inbox.{new_memory_inbox}
use a2a_gateway_mcp.Registry.Limits.{new_rate_limiter_registry}
use a2a_gateway_mcp.Registry.Resolved.{ResolveResult}
use a2a_gateway_mcp.Tool.Background.{task_result}
use a2a_gateway_mcp.Tool.Input.{decoded}
use a2a_gateway_mcp.Tool.Poll.{tick}
use a2a_gateway_mcp.Tool.Send.{
  Environment, SendMessageInput, SendMessageRequest, Polling, SendRequest, Stores, Live,
}
use a2a_gateway_mcp.Tool.Stream.{event, task_event}
use a2a_gateway_mcp.Examples.Fixtures.{whole_rates, plain_clients, any_url, plain_rendering}
use a2a_gateway_mcp.Examples.Sending.{plain, state_name, in_state, waits}

abbrev pub is_unauthorized : Target → Bool
is_unauthorized unauthorized = true
is_unauthorized _ = false

abbrev pub denied : Error
denied = foreign is_unauthorized "401"

abbrev pub running_polling : Polling
running_polling = record { start = 0; rounds = waits ++ tick 6 (ok (in_state completed)) ∷ [] }

abbrev pub two_agents : Environment
two_agents = record {
  limiting = whole_rates;
  sdk = plain_clients;
  parse = any_url;
  decode_string = λ s. decoded s;
  sprintf = plain;
  state_name = state_name;
  show_duration = λ d. "10ns";
  rendering = plain_rendering;
  effective_poll_timeout = λ seconds. pos 10;
  effective_stream_timeout = λ seconds. pos 10;
  World = ℕ;
  send_message = λ client request w.
      (if client.0 == "stale" then err denied else ok (task_result (in_state working)), suc w);
  send_streaming_message =
      λ client timeout request w. (event (task_event (in_state completed)) ∷ [], suc w);
  poll = λ client id w. (running_polling, suc w);
  Log = List RecordInput;
  record_input = λ i log. i ∷ log;
}

-- An agent is registered as "a", and the client cached for its URL is stale.
abbrev pub two_stores : Stores two_agents
two_stores = record {
  agents = (Agents.connect "a" "https://a" GoMap.empty "" new_agent_registry).1;
  clients = record { clients = GoMap.insert "https://a" ("stale", no_headers) GoMap.empty };
  contexts = Contexts.new_context_store;
  caller_cards = new_caller_card_store;
  limits = new_rate_limiter_registry whole_rates;
  health = Tracker.reset "a" (Tracker.new_health_tracker (pos 1));
  history = none;
  inbox = new_memory_inbox (pos 0);
}

abbrev pub at_start : Live two_agents
at_start = record { stores = two_stores; world = 0; log = [] }

abbrev pub hello : SendMessageInput
hello = record {
  agent = "a";
  message = "hello";
  parts = [];
  context_id = "";
  task_id = "";
  metadata = none;
  poll_timeout_seconds = none;
  async = none;
}

abbrev pub target_a : ResolveResult
target_a = record { url = "https://a"; headers = GoMap.empty; is_alias = true; alias = "a" }

abbrev pub hello_request : SendMessageRequest
hello_request = record {
  message = record { parts = some (text "hello") ∷ []; context_id = ""; task_id = "" };
  metadata = none;
}

abbrev pub to_a : SendRequest two_agents
to_a = record { resolved = target_a; client = ("stale", no_headers); request = hello_request }
