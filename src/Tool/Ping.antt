-- ===== src/Tool/Ping.antt =====
-- internal/tool/tool_ping.go, and the default strategy of health/ping.go. A strategy is a function on
-- a world of agents; of package net/http the client is a parameter: the error of a request that
-- cannot be made, and what Do returns, with the time that it took.
pub mod Effects
use a2a_gateway_mcp.Prelude.{
  ℕ, Bool, true, false, not, Option, none, some, List, [], ◌∷◌, String, ◌==◌, if◌then◌else◌,
}
use a2a_gateway_mcp.GoMap.{GoMap}
use a2a_gateway_mcp.Errors.{Error, Result, ok, err, errorf, text}
use a2a_gateway_mcp.Health.Classify.{
  ConnectionOutcome, outcome_success, outcome_connection_error, outcome_context_canceled,
  classify_error,
}
use a2a_gateway_mcp.Health.Ping.{build_ping_url}
use a2a_gateway_mcp.Health.Tracker.{
  HealthStatus, HealthTracker, record_success, record_failure, is_enabled, get_status,
}
use a2a_gateway_mcp.Registry.Agents
use a2a_gateway_mcp.Registry.Agents.{AgentRegistry, RegisteredAgent}

pub record PingTarget : Type 0 where
  pub alias : String
  pub url : String
  pub headers : GoMap String
  pub ping_endpoint : String

-- The response time is in milliseconds.
pub record PingResult : Type 0 where
  pub reachable : Bool
  pub response_time : ℕ
  pub err : Option Error

pub record PingAgentOutput : Type 0 where
  pub reachable : Bool
  pub health : HealthStatus
  pub response_time : Option ℕ

abbrev by_outcome : ConnectionOutcome → String → HealthTracker → HealthTracker
by_outcome outcome_connection_error alias h = record_failure alias h
by_outcome outcome_context_canceled alias h = h
by_outcome outcome_success alias h = record_success alias h

unfoldable pub update_health : String → PingResult → HealthTracker → HealthTracker
update_health alias result h =
    if not (is_enabled h)
    then h
    else if result.reachable
    then record_success alias h
    else by_outcome (classify_error result.err) alias h

abbrev pub target_of : String → RegisteredAgent → PingTarget
target_of alias entry = record {
  alias = alias;
  url = entry.url;
  headers = entry.headers;
  ping_endpoint = entry.ping_endpoint;
}

module _ {W : Type 0} (ping : PingTarget → W → PingResult × W) where
  abbrev pub output_of : String → PingResult → HealthTracker → PingAgentOutput
  output_of alias result h = record {
    reachable = result.reachable;
    health = get_status alias h;
    response_time = if result.reachable then some result.response_time else none;
  }

  abbrev pub answered :
      String → PingResult × W → HealthTracker → Result PingAgentOutput × (HealthTracker × W)
  answered alias (result, w) h =
      let h' = update_health alias result h in (ok (output_of alias result h'), (h', w))

  unfoldable pub handle :
      String → AgentRegistry → HealthTracker → W → Result PingAgentOutput × (HealthTracker × W)
  unfolding update_health
  handle alias agents h w =
      if alias == ""
      then (err (errorf "alias is required" []), (h, w))
      else elim (Agents.lookup alias agents) [
        | none ↦ (err (errorf "agent %q not found in registry" (text alias ∷ [])), (h, w))
        | some entry ↦ answered alias (ping (target_of alias entry) w) h
      ]

-- DefaultPingStrategy.Ping
module _ {W : Type 0} (new_request : String → Option Error)
    (do_request : String → GoMap String → W → (Option Error × ℕ) × W) where
  abbrev pinged : (Option Error × ℕ) × W → PingResult × W
  pinged ((some e, elapsed), w) = (record { reachable = false; response_time = 0; err = some e }, w)
  pinged ((none, elapsed), w) =
      (record { reachable = true; response_time = elapsed; err = none }, w)

  unfoldable pub default_ping : PingTarget → W → PingResult × W
  unfolding build_ping_url
  default_ping target w =
      let url = build_ping_url target.url target.ping_endpoint in
      elim (new_request url) [
        | some e ↦ (record { reachable = false; response_time = 0; err = some e }, w)
        | none ↦ pinged (do_request url target.headers w)
      ]
