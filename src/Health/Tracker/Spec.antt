-- ===== src/Health/Tracker/Spec.antt =====
-- What the tracker promises about one agent, told without its map and without its states: an agent
-- is tracked from its last `reset` on, until it is deleted; the failures that count are those since
-- the last success or reset; and the status follows from their number.
use a2a_gateway_mcp.Prelude.{
  ℕ, suc, ◌≡◌, refl, ap, ◌∙◌, Bool, true, false, Option, none, some, String, List, [], ◌∷◌,
  if◌then◌else◌, arith, ◌==◌, leb, Bool-cases, inl, inr,
}
use a2a_gateway_mcp.Prelude.Int.{pos}
use a2a_gateway_mcp.GoMap
use a2a_gateway_mcp.Health.Tracker.{
  healthy, unhealthy, unknown, HealthState, new_health_tracker, get, unknown_state, or_unknown,
}
use a2a_gateway_mcp.Health.Tracker.Runs.{
  Call, success, failure, resets, deletes, run, entry_step, entry_run, entry-run,
}

-- Has there been a success since the reset, and how many failures followed?
pub record Record : Type 0 where
  pub answered : Bool
  pub failures : ℕ

-- What one more call adds to the record of its agent.
unfoldable pub note : Call → Option Record → Option Record
note success none = none
note success (some r) = some (record { answered = true; failures = 0 })
note failure none = none
note failure (some r) = some (record r { failures = suc r.failures })
note resets r = some (record { answered = false; failures = 0 })
note deletes r = none

-- The record of an agent after the calls, oldest first.
abbrev pub notes : String → List (String × Call) → Option Record → Option Record
notes alias [] r = r
notes alias ((a, c) ∷ cs) r = notes alias cs (if a == alias then note c r else r)

-- The report for an agent with that record, at a positive threshold.
unfoldable pub report : ℕ → Record → HealthState
report t r = record {
  status = if leb t r.failures then unhealthy else if r.answered then healthy else unknown;
  failures = r.failures;
}

report_entry : ℕ → Option Record → Option HealthState
report_entry t none = none
report_entry t (some r) = some (report t r)

entry_step-note :
    (t : ℕ) (c : Call) (r : Option Record)
    → entry_step (pos (suc t)) c (report_entry (suc t) r) ≡ report_entry (suc t) (note c r)
unfolding entry_step report_entry note report
entry_step-note t success none = refl
entry_step-note t success (some r) = ground arith
entry_step-note t failure none = refl
entry_step-note t failure (some r) = ground arith
entry_step-note t resets r = ground arith
entry_step-note t deletes r = refl

entry_run-notes :
    (t : ℕ) (alias : String) (cs : List (String × Call)) (r : Option Record)
    → entry_run (pos (suc t)) alias cs (report_entry (suc t) r)
      ≡ report_entry (suc t) (notes alias cs r)
entry_run-notes t alias [] r = refl
entry_run-notes t alias ((a, c) ∷ cs) r = elim (Bool-cases (a == alias)) [
  | inl e ↦ rw (e, entry_step-note t c r) (entry_run-notes t alias cs (note c r))
  | inr e ↦ rw e (entry_run-notes t alias cs r)
]

abbrev pub reported : ℕ → Option Record → HealthState
reported t none = unknown_state
reported t (some r) = report t r

or_unknown-report : (t : ℕ) (r : Option Record) → or_unknown (report_entry t r) ≡ reported t r
unfolding report_entry
or_unknown-report t none = refl
or_unknown-report t (some r) = refl

-- Whatever calls a new tracker with a positive threshold has received, for whatever agents, `get`
-- returns the report of the agent's own record: unknown if it is not tracked; otherwise the number
-- of failures since its last success or reset, and unhealthy exactly from the threshold on.
pub get-run :
    (t : ℕ) (alias : String) (cs : List (String × Call))
    → get alias (run cs (new_health_tracker (pos (suc t)))) ≡ reported (suc t) (notes alias cs none)
unfolding get new_health_tracker report_entry
get-run t alias cs =
    let start = new_health_tracker (pos (suc t)) in
    ap or_unknown (entry-run alias cs start (ground arith))
    ∙ ap (λ e. or_unknown (entry_run (pos (suc t)) alias cs e)) (GoMap.lookup-empty alias)
    ∙ ap or_unknown (entry_run-notes t alias cs none)
    ∙ or_unknown-report (suc t) (notes alias cs none)
