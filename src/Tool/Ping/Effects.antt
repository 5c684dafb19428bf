-- ===== src/Tool/Ping/Effects.antt =====
-- What a ping by the default strategy makes of the health of its agent.
use a2a_gateway_mcp.Prelude.{
  arith, ℕ, ◌≡◌, ◌≢◌, refl, Bool, true, false, not, ◌&&◌, Option, none, some, String, ◌==◌,
  if◌then◌else◌, is_some, Bool-cases, inl, inr, eq_iff,
}
use a2a_gateway_mcp.GoMap.{GoMap}
use a2a_gateway_mcp.Errors.{Error, ok, errors_is, canceled, deadline_exceeded}
use a2a_gateway_mcp.Health.Classify.{classify_error}
use a2a_gateway_mcp.Health.Ping.{build_ping_url}
use a2a_gateway_mcp.Health.Tracker.{HealthTracker, record_success, record_failure, is_enabled}
use a2a_gateway_mcp.Registry.Agents
use a2a_gateway_mcp.Registry.Agents.{AgentRegistry, RegisteredAgent}
use a2a_gateway_mcp.Tool.Ping.{
  PingTarget, PingResult, target_of, output_of, update_health, handle, default_ping, pinged,
}

-- A ping was given up by its caller, and not by its own timeout.
abbrev pub given_up : Error → Bool
given_up e = errors_is canceled e && not (errors_is deadline_exceeded e)

-- The health after a ping that ended with an error, or with none.
abbrev pub health_after : String → Option Error → HealthTracker → HealthTracker
health_after alias none h = record_success alias h
health_after alias (some e) h = if given_up e then h else record_failure alias h

update_health-unreached :
    (alias : String) (e : Error) (h : HealthTracker)
    → is_enabled h ≡ true
    → update_health alias (record { reachable = false; response_time = 0; err = some e }) h
      ≡ health_after alias (some e) h
unfolding update_health classify_error
update_health-unreached alias e h enabled = rw enabled (ground arith)

update_health-reached :
    (alias : String) (t : ℕ) (h : HealthTracker)
    → is_enabled h ≡ true
    → update_health alias (record { reachable = true; response_time = t; err = none }) h
      ≡ record_success alias h
unfolding update_health
update_health-reached alias t h enabled = rw enabled refl

module _ {W : Type 0} (new_request : String → Option Error)
    (do_request : String → GoMap String → W → (Option Error × ℕ) × W) where
  -- The strategy says that the agent is reached exactly if there is no error.
  abbrev Told : PingResult → Type 0
  Told r =
      (r.reachable ≡ not (is_some r.err))
      × ((alias : String) (h : HealthTracker)
          → is_enabled h ≡ true
          → update_health alias r h ≡ health_after alias r.err h)

  pinged-Told : (out : (Option Error × ℕ) × W) → Told (pinged new_request do_request out).0
  pinged-Told ((some e, t), w) = (refl, λ alias h. update_health-unreached alias e h)
  pinged-Told ((none, t), w) = (refl, λ alias h. update_health-reached alias t h)

  made-Told :
      (e : Option Error) (target : PingTarget) (w : W)
      → new_request (build_ping_url target.url target.ping_endpoint) ≡ e
      → Told (default_ping new_request do_request target w).0
  unfolding default_ping
  made-Told (some e) target w q =
      rw (q, default_ping) (refl, λ alias h. update_health-unreached alias e h)
  made-Told none target w q =
      rw (q, default_ping)
        (pinged-Told (do_request (build_ping_url target.url target.ping_endpoint) target.headers w))

  -- With health tracking on, a ping of a registered agent by the default strategy reports it as reached
  -- exactly if there is no error; then its health counts a success, and otherwise a failure, unless
  -- the caller gave the ping up, which changes nothing; the health reported is the one after that.
  pub ping-health :
      (alias : String) (agents : AgentRegistry) (entry : RegisteredAgent) (h : HealthTracker)
      (w : W)
      → alias ≢ ""
      → Agents.lookup alias agents ≡ some entry
      → is_enabled h ≡ true
      → let result = (default_ping new_request do_request (target_of alias entry) w).0 in
        let out = handle (default_ping new_request do_request) alias agents h w in
        (out.1.0 ≡ health_after alias result.err h)
        × (out.0 ≡ ok (output_of (default_ping new_request do_request) alias result out.1.0))
        × (result.reachable ≡ not (is_some result.err))
  unfolding handle
  ping-health alias agents entry h w given registered enabled =
      let (told, counted) =
        made-Told (new_request (build_ping_url entry.url entry.ping_endpoint))
          (target_of alias entry) w refl in
      elim (Bool-cases (alias == "")) [
        | inl q ↦ absurd (given ((eq_iff alias "").0 q))
        | inr q ↦ rw (q, registered) (counted alias h enabled, refl, told)
      ]
