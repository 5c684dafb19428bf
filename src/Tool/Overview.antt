-- ===== src/Tool/Overview.antt =====
-- internal/tool/tool_list.go and internal/tool/tool_caller_card.go. The trimming of white space, the
-- formatting of a limit and encoding/json are parameters.
use a2a_gateway_mcp.Prelude.{
  ℕ, Bool, true, false, Option, none, some, List, [], ◌∷◌, String, ◌==◌, if◌then◌else◌, map,
}
use a2a_gateway_mcp.Prelude.Int.{ℤ}
use a2a_gateway_mcp.GoMap
use a2a_gateway_mcp.GoMap.{GoMap}
use a2a_gateway_mcp.Errors.{Error, Result, ok, err, errorf, wrapf, text, Formatted}
use a2a_gateway_mcp.Health.Tracker
use a2a_gateway_mcp.Health.Tracker.{HealthStatus, HealthTracker}
use a2a_gateway_mcp.Registry.Agents
use a2a_gateway_mcp.Registry.Agents.{AgentRegistry, RegisteredAgent}
use a2a_gateway_mcp.Registry.CallerCards
use a2a_gateway_mcp.Registry.CallerCards.{
  CallerSkill, CallerCapabilities, CallerCard, CallerCardStore,
}
use a2a_gateway_mcp.Registry.Fetch.{CardServer, request_card}
use a2a_gateway_mcp.Registry.Limits
use a2a_gateway_mcp.Registry.Limits.{RateLimiting, RateLimiterRegistry}
use a2a_gateway_mcp.Registry.Resolved.{ResolveResult}
use a2a_gateway_mcp.Tool.Session.{resolve_agent}
use a2a_gateway_mcp.Validate.{ParsedUrl}

module _ (R : RateLimiting) (show_limit : R.Float → ℤ → String) where
  pub record ListAgentEntry : Type 0 where
    pub alias : String
    pub url : String
    pub rate_limit : String
    pub health : HealthStatus
    pub consecutive_failures : Option ℕ

  abbrev shown_limit : Option (R.Float × ℤ) → String
  shown_limit none = "unlimited"
  shown_limit (some (rps, burst)) = show_limit rps burst

  abbrev failures_if : ℕ × Bool → Option ℕ
  failures_if (failures, unhealthy) = if unhealthy then some failures else none

  -- What is shown of an agent.
  abbrev pub entry_of : RateLimiterRegistry R → HealthTracker → RegisteredAgent → ListAgentEntry
  entry_of limits health entry = record {
    alias = entry.alias;
    url = entry.url;
    rate_limit = shown_limit (Limits.get R entry.alias limits);
    health = Tracker.get_status entry.alias health;
    consecutive_failures = failures_if (Tracker.get_failures entry.alias health);
  }

  -- ListAgentsTool.Handle
  unfoldable pub list_agents :
      AgentRegistry → RateLimiterRegistry R → HealthTracker → List ListAgentEntry
  list_agents agents limits health = map (entry_of limits health) (Agents.list agents)

pub record CreateCallerCardInput : Type 0 where
  pub name : String
  pub description : String
  pub url : String
  pub skills : List CallerSkill
  pub capabilities : Option CallerCapabilities
  pub metadata_key : String

abbrev pub card_of : CreateCallerCardInput → CallerCard
card_of input = record {
  name = input.name;
  description = input.description;
  url = input.url;
  skills = input.skills;
  capabilities = input.capabilities;
}

-- CreateCallerCardTool.Handle
unfoldable pub create_caller_card :
    (String → String) → CreateCallerCardInput → CallerCardStore → Result Formatted × CallerCardStore
create_caller_card trim_space input s =
    if trim_space input.name == ""
    then (err (errorf "name must not be empty or whitespace-only" []), s)
    else (
      ok (record { format = "Caller agent card registered for %q"; args = text input.name ∷ [] }),
      CallerCards.set (card_of input) input.metadata_key s,
    )

-- The text of the tool result.
abbrev card_text : (Error → String) → Result String → Result String
card_text show_error (ok s) = ok s
card_text show_error (err e) =
    err (errorf "failed to serialize caller card: %v" (text (show_error e) ∷ []))

-- ViewCallerCardTool.Handle
unfoldable pub view_caller_card :
    (Error → String) → (CallerCard → Result String) → CallerCardStore → Result String
view_caller_card show_error marshal_indent s = elim (CallerCards.get s) [
  | none ↦ ok "no caller agent card is currently set"
  | some card ↦ card_text show_error (marshal_indent card)
]

abbrev removed_card : Bool × CallerCardStore → Result String × CallerCardStore
removed_card (true, s) = (ok "Caller agent card removed", s)
removed_card (false, s) = (err (errorf "no caller agent card was set" []), s)

-- RemoveCallerCardTool.Handle
unfoldable pub remove_caller_card : CallerCardStore → Result String × CallerCardStore
remove_caller_card s = removed_card (CallerCards.remove s)

module _ {C : Type 0} (N : CardServer C) (trim_space : String → String)
    (parse : String → ParsedUrl) where
  abbrev card_target : Result ResolveResult → Result C
  card_target (err e) = err (wrapf "failed to resolve agent: %w" [] e)
  card_target (ok resolved) =
      request_card N resolved.url (if resolved.is_alias then GoMap.entries resolved.headers else [])

  -- GetAgentCardTool.Handle
  unfoldable pub get_agent_card : AgentRegistry → String → Result C
  unfolding resolve_agent request_card
  get_agent_card agents agent =
      if trim_space agent == ""
      then err (errorf "agent identifier is required and cannot be empty" [])
      else card_target (resolve_agent parse agents agent)
