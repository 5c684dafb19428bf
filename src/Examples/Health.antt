-- ===== src/Examples/Health.antt =====
-- Health tracking and the addresses of liveness checks.
use a2a_gateway_mcp.Prelude.Int.{pos}
use a2a_gateway_mcp.Prelude.{◌≡◌, Bool, true, false, none, List, [], ◌∷◌, String}
use a2a_gateway_mcp.Errors.{Target, canceled}
use a2a_gateway_mcp.Health.Tracker.{new_health_tracker, get}
use a2a_gateway_mcp.Health.Tracker.Runs.{Call, success, failure, resets, run}
use a2a_gateway_mcp.Health.Tracker.Spec.{get-run, reported, notes}

abbrev calls : List (String × Call)
calls = ("a", resets) ∷ (("a", failure) ∷ (("b", success) ∷ (("a", failure) ∷ [])))

get-run_example :
    get "a" (run calls (new_health_tracker (pos 2))) ≡ reported 2 (notes "a" calls none)
get-run_example = get-run 1 "a" calls

-- What a cancelled context answers.
abbrev is_canceled : Target → Bool
is_canceled canceled = true
is_canceled _ = false
