-- ===== src/Health/Tracker.antt =====
-- health/health_tracker.go: the health state of each agent. The failure count is a number without
-- the 64-bit bound of Go's `int`; the threshold has its sign. The mutex makes each call one step.
pub mod Runs
pub mod Spec
use a2a_gateway_mcp.Prelude.{
  ℕ, suc, ◌≡◌, Bool, true, false, Option, none, some, String, if◌then◌else◌, arith, not, ltb,
}
use a2a_gateway_mcp.Prelude.Int.{ℤ, pos, negsuc, is_zero, reaches}
use a2a_gateway_mcp.GoMap
use a2a_gateway_mcp.GoMap.{GoMap}

pub data HealthStatus : Type 0 where
  healthy unhealthy unknown : HealthStatus

pub record HealthState : Type 0 where
  pub status : HealthStatus
  pub failures : ℕ

pub record HealthTracker : Type 0 where
  pub agents : GoMap HealthState
  pub threshold : ℤ

unfoldable pub new_health_tracker : ℤ → HealthTracker
new_health_tracker threshold = record { agents = GoMap.empty; threshold = threshold }

-- What a success makes of an entry.
abbrev pub succeeded : HealthState → HealthState
succeeded state = record { status = healthy; failures = 0 }

-- What a failure makes of an entry.
abbrev pub failed : ℤ → HealthState → HealthState
failed threshold state =
    if reaches (suc state.failures) threshold
    then record { status = unhealthy; failures = suc state.failures }
    else record state { failures = suc state.failures }

-- The entry of an alias is changed in place, if there is one.
abbrev pub change : (HealthState → HealthState) → String → HealthTracker → HealthTracker
change f alias h = elim (GoMap.lookup alias h.agents) [
  | none ↦ h
  | some state ↦ record h { agents = GoMap.insert alias (f state) h.agents }
]

unfoldable pub record_success : String → HealthTracker → HealthTracker
record_success alias h = if is_zero h.threshold then h else change succeeded alias h

unfoldable pub record_failure : String → HealthTracker → HealthTracker
record_failure alias h = if is_zero h.threshold then h else change (failed h.threshold) alias h

abbrev pub unknown_state : HealthState
unknown_state = record { status = unknown; failures = 0 }

abbrev pub or_unknown : Option HealthState → HealthState
or_unknown none = unknown_state
or_unknown (some state) = state

unfoldable pub get : String → HealthTracker → HealthState
get alias h = or_unknown (GoMap.lookup alias h.agents)

unfoldable pub reset : String → HealthTracker → HealthTracker
reset alias h =
    if is_zero h.threshold
    then h
    else record h { agents = GoMap.insert alias unknown_state h.agents }

unfoldable pub delete : String → HealthTracker → HealthTracker
delete alias h =
    if is_zero h.threshold then h else record h { agents = GoMap.delete alias h.agents }

-- threshold > 0
unfoldable pub is_enabled : HealthTracker → Bool
is_enabled h = elim h.threshold [ pos n ↦ ltb 0 n | negsuc n ↦ false ]

abbrev pub is_unhealthy : HealthStatus → Bool
is_unhealthy unhealthy = true
is_unhealthy healthy = false
is_unhealthy unknown = false

unfoldable pub is_healthy : String → HealthTracker → Bool
unfolding get
is_healthy alias h = not (is_unhealthy (get alias h).status)

unfoldable pub get_status : String → HealthTracker → HealthStatus
unfolding get
get_status alias h = (get alias h).status

unfoldable pub get_failures : String → HealthTracker → ℕ × Bool
unfolding get
get_failures alias h = ((get alias h).failures, is_unhealthy (get alias h).status)
