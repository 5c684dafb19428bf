-- ===== src/Examples/Tools.antt =====
-- The tools that look at an agent: a ping that is answered, a history, a failed send and a task.
use a2a_gateway_mcp.Prelude.{
  arith, ℕ, suc, ◌≡◌, refl, true, not, Option, none, some, [], ◌∷◌, String, ◌==◌, if◌then◌else◌,
  is_some, eq_iff, ◌≢◌,
}
use a2a_gateway_mcp.Prelude.Int.{pos}
use a2a_gateway_mcp.GoMap
use a2a_gateway_mcp.GoMap.{GoMap}
use a2a_gateway_mcp.Errors.{Formatted, Error, Result, ok, err}
use a2a_gateway_mcp.A2a.{Task, failed}
use a2a_gateway_mcp.Health.Tracker
use a2a_gateway_mcp.Health.Tracker.{HealthTracker}
use a2a_gateway_mcp.History.Memory
use a2a_gateway_mcp.History.Memory.{MemoryBackend}
use a2a_gateway_mcp.History.Entries.{last_n}
use a2a_gateway_mcp.Registry.Agents
use a2a_gateway_mcp.Registry.Agents.{AgentRegistry, RegisteredAgent, new_agent_registry}
use a2a_gateway_mcp.Registry.Clients.{ClientResolver}
use a2a_gateway_mcp.Registry.Http.{HeaderProvider, no_headers}
use a2a_gateway_mcp.Registry.Inbox.{MemoryInbox, new_memory_inbox}
use a2a_gateway_mcp.Tool.Background.{background_send_and_poll}
use a2a_gateway_mcp.Tool.Ping.{PingResult, target_of, output_of, handle, default_ping}
use a2a_gateway_mcp.Tool.Ping.Effects.{health_after, ping-health}
use a2a_gateway_mcp.Tool.Reading.{get_history, clear_history, read_inbox}
use a2a_gateway_mcp.Tool.Reading.Effects.{history-shown}
use a2a_gateway_mcp.Tool.Reading.Lost.{everything_of, error_lost}
use a2a_gateway_mcp.Tool.Session.{resolve_agent}
use a2a_gateway_mcp.Tool.Tasks.{get_task}
use a2a_gateway_mcp.Examples.Messages.{cached, made}
use a2a_gateway_mcp.Tool.Tasks.Outcome.{last_answer, Tells, get_task-reported}
use a2a_gateway_mcp.Examples.Agents.{denied, two_stores, target_a}
use a2a_gateway_mcp.Examples.Fixtures.{plain_clients, any_url, plain_rendering}
use a2a_gateway_mcp.Examples.Sending.{plain, state_name, in_state}

abbrev makeable : String → Option Error
makeable url = none

-- Every request is answered after seven milliseconds; the world counts them.
abbrev answering : String → GoMap String → ℕ → (Option Error × ℕ) × ℕ
answering url headers w = ((none, 7), suc w)

abbrev agent_a : RegisteredAgent
agent_a = record {
  alias = "a";
  url = "https://a";
  headers = GoMap.empty;
  ping_endpoint = "";
  card = none;
}

registered_a : Agents.lookup "a" two_stores.agents ≡ some agent_a
unfolding Agents.lookup Agents.connect Agents.new_agent_registry GoMap.lookup GoMap.insert
    GoMap.empty
registered_a = refl

tracked : Tracker.is_enabled two_stores.health ≡ true
unfolding Tracker.is_enabled Tracker.reset Tracker.new_health_tracker
tracked = refl

abbrev ping_result : PingResult
ping_result = (default_ping makeable answering (target_of "a" agent_a) 0).0

abbrev ping_health : HealthTracker
ping_health =
    (handle (default_ping makeable answering) "a" two_stores.agents two_stores.health 0).1.0

ping-health_example :
    (ping_health ≡ health_after "a" ping_result.err two_stores.health)
    × ((handle (default_ping makeable answering) "a" two_stores.agents two_stores.health 0).0
        ≡ ok (output_of (default_ping makeable answering) "a" ping_result ping_health))
    × (ping_result.reachable ≡ not (is_some ping_result.err))
ping-health_example =
    ping-health makeable answering "a" two_stores.agents agent_a two_stores.health 0 (λ e. cc e)
      registered_a tracked

other_name : ◌≢◌ {A = String} "b" "a"
other_name e = cc ((eq_iff "b" "a").1 e)

abbrev no_entries : MemoryBackend
no_entries = Memory.new_memory_backend (pos 3)

history-shown_example :
    (get_history "a" (some (pos 2)) two_stores.agents (some no_entries)
      ≡ some (ok (last_n 2 (Memory.list "a" no_entries))))
    × (get_history "a" none two_stores.agents (some no_entries)
        ≡ some (ok (Memory.list "a" no_entries)))
    × ((told : Formatted) × (m : MemoryBackend) × (clear_history "a" two_stores.agents
            (some no_entries)
          ≡ some (ok told, some m))
        × (get_history "a" none two_stores.agents (some m) ≡ some (ok []))
        × (Memory.list "b" m ≡ Memory.list "b" no_entries))
    × (get_history "a" none two_stores.agents none ≡ none)
    × (clear_history "a" two_stores.agents none ≡ none)
history-shown_example =
    history-shown "a" "b" 1 two_stores.agents agent_a no_entries (λ e. cc e) registered_a other_name

abbrev one_failure : Option MemoryInbox
one_failure =
    background_send_and_poll state_name plain 0 (pos 10) "10ns" [] 5 "a" (err denied)
      (new_memory_inbox (pos 100))

abbrev the_inbox : Option MemoryInbox → MemoryInbox
the_inbox none = new_memory_inbox (pos 100)
the_inbox (some m) = m

one_is_left : one_failure ≡ some (the_inbox one_failure)
unfolding background_send_and_poll
one_is_left = refl

error_lost_example :
    (read_inbox 50 (everything_of state_name plain "a") (the_inbox one_failure)).0
    ≡ some (ok (record { message = none; task = none; async = none } ∷ []))
error_lost_example =
    error_lost state_name plain 0 5 50 99 (pos 10) "10ns" "a" [] denied (the_inbox one_failure)
      (λ e. cc e) (ground arith) one_is_left

-- The stale client is refused, and any other finds that the task has failed.
abbrev failing : String × HeaderProvider → String → ℕ → Result Task × ℕ
failing client id w = (if client.0 == "stale" then err denied else ok (in_state failed), suc w)

resolved_a : resolve_agent any_url two_stores.agents "a" ≡ ok target_a
unfolding resolve_agent Agents.lookup Agents.connect Agents.new_agent_registry GoMap.lookup
    GoMap.insert GoMap.empty
resolved_a = refl

abbrev task_told : (Option Task × Option Error) × (ClientResolver plain_clients × ℕ)
task_told =
    get_task plain_clients any_url plain_rendering failing "a" "t-1" two_stores.agents
      two_stores.clients 0

abbrev last_told : Result Task × ℕ
last_told =
    last_answer plain_clients any_url plain_rendering failing ("stale", no_headers)
      ("https://a", no_headers) "t-1" 0

get_task-reported_example :
    Tells plain_clients any_url plain_rendering failing last_told.0 task_told.0
    × (task_told.1.1 ≡ last_told.1)
get_task-reported_example =
    get_task-reported plain_clients any_url plain_rendering failing "a" "t-1" two_stores.agents
      target_a ("stale", no_headers) ("https://a", no_headers) two_stores.clients 0 (λ e. cc e)
      (λ e. cc e) resolved_a cached made
