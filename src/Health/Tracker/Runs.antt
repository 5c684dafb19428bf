-- ===== src/Health/Tracker/Runs.antt =====
-- Sequences of calls on the tracker, and what they leave for one agent.
use a2a_gateway_mcp.Prelude.{
  Bool-cases, ◌≡◌, refl, ap, ◌∙◌, true, false, Option, none, some, String, List, [], ◌∷◌,
  if◌then◌else◌, arith, ◌==◌, eq_iff, inl, inr, Option-cases,
}
use a2a_gateway_mcp.Prelude.Int.{ℤ, is_zero}
use a2a_gateway_mcp.GoMap
use a2a_gateway_mcp.GoMap.{GoMap, map_laws}
use a2a_gateway_mcp.Health.Tracker.{
  get, HealthState, HealthTracker, change, succeeded, failed, record_success, record_failure, reset,
  delete, unknown_state,
}

-- The calls that change the tracker.
pub data Call : Type 0 where
  success failure resets deletes : Call

unfoldable pub step : String × Call → HealthTracker → HealthTracker
step (alias, success) h = record_success alias h
step (alias, failure) h = record_failure alias h
step (alias, resets) h = reset alias h
step (alias, deletes) h = delete alias h

unfoldable pub run : List (String × Call) → HealthTracker → HealthTracker
run [] h = h
run (c ∷ cs) h = run cs (step c h)

-- What a call makes of the entry of its own alias, with tracking on.
unfoldable pub entry_step : ℤ → Call → Option HealthState → Option HealthState
entry_step t success none = none
entry_step t success (some state) = some (succeeded state)
entry_step t failure none = none
entry_step t failure (some state) = some (failed t state)
entry_step t resets e = some unknown_state
entry_step t deletes e = none

abbrev pub entry_run : ℤ → String → List (String × Call) → Option HealthState → Option HealthState
entry_run t alias [] e = e
entry_run t alias ((a, c) ∷ cs) e =
    entry_run t alias cs (if a == alias then entry_step t c e else e)

threshold-step : (c : String × Call) (h : HealthTracker) → (step c h).threshold ≡ h.threshold
unfolding step record_success record_failure reset delete
threshold-step (a, success) h = ground arith
threshold-step (a, failure) h = ground arith
threshold-step (a, resets) h = ground arith
threshold-step (a, deletes) h = ground arith

abbrev map_entry : (HealthState → HealthState) → Option HealthState → Option HealthState
map_entry f none = none
map_entry f (some state) = some (f state)

lookup-change :
    (f : HealthState → HealthState) (alias a : String) (h : HealthTracker)
    → GoMap.lookup alias (change f a h).agents ≡ (
        if a == alias
        then map_entry f (GoMap.lookup alias h.agents)
        else GoMap.lookup alias h.agents)
lookup-change f alias a h = elim (Option-cases (GoMap.lookup a h.agents)) [
  | inl e ↦ rw (e, change) (ground (arith, e, eq_iff a alias))
  | inr (state, e) ↦
      rw (e, change)
        (ground (arith, e, eq_iff a alias, GoMap.lookup-insert a alias (f state) h.agents))
]

entry_step-map :
    (t : ℤ) (e : Option HealthState)
    → (entry_step t success e ≡ map_entry succeeded e)
      × (entry_step t failure e ≡ map_entry (failed t) e)
unfolding entry_step
entry_step-map t none = (refl, refl)
entry_step-map t (some state) = (refl, refl)

lookup-step :
    (alias a : String) (c : Call) (h : HealthTracker)
    → is_zero h.threshold ≡ false
    → GoMap.lookup alias (step (a, c) h).agents ≡ (
        if a == alias
        then entry_step h.threshold c (GoMap.lookup alias h.agents)
        else GoMap.lookup alias h.agents)
unfolding step record_success record_failure reset delete
lookup-step alias a success h z =
    rw (z, (entry_step-map h.threshold (GoMap.lookup alias h.agents)).0)
      (lookup-change succeeded alias a h)
lookup-step alias a failure h z =
    rw (z, (entry_step-map h.threshold (GoMap.lookup alias h.agents)).1)
      (lookup-change (failed h.threshold) alias a h)
lookup-step alias a resets h z =
    rw z (unfold entry_step in GoMap.lookup-insert a alias unknown_state h.agents)
lookup-step alias a deletes h z = rw z (unfold entry_step in GoMap.lookup-delete a alias h.agents)

-- The entry of an alias after a run depends on the calls for that alias alone.
pub entry-run :
    (alias : String) (cs : List (String × Call)) (h : HealthTracker)
    → is_zero h.threshold ≡ false
    → GoMap.lookup alias (run cs h).agents
      ≡ entry_run h.threshold alias cs (GoMap.lookup alias h.agents)
unfolding run
entry-run alias [] h z = refl
entry-run alias ((a, c) ∷ cs) h z =
    let after = step (a, c) h in
    let kept : after.threshold ≡ h.threshold = threshold-step (a, c) h in
    entry-run alias cs after (ap is_zero kept ∙ z)
    ∙ ap (λ t. entry_run t alias cs (GoMap.lookup alias after.agents)) kept
    ∙ ap (entry_run h.threshold alias cs) (lookup-step alias a c h z)

-- With a threshold of 0 every call leaves the tracker as it was.
pub run_disabled :
    (cs : List (String × Call)) (h : HealthTracker) → is_zero h.threshold ≡ true → run cs h ≡ h
unfolding run step record_success record_failure reset delete
run_disabled [] h z = refl
run_disabled ((a, success) ∷ cs) h z = rw z (run_disabled cs h z)
run_disabled ((a, failure) ∷ cs) h z = rw z (run_disabled cs h z)
run_disabled ((a, resets) ∷ cs) h z = rw z (run_disabled cs h z)
run_disabled ((a, deletes) ∷ cs) h z = rw z (run_disabled cs h z)

-- A reset of one agent, seen from any agent: with tracking on the agent is unknown again, with no
-- failure.
pub get-reset :
    (alias b : String) (h : HealthTracker)
    → get b (reset alias h)
      ≡ (if is_zero h.threshold then get b h else if alias == b then unknown_state else get b h)
unfolding get reset
get-reset alias b h = elim (Bool-cases (is_zero h.threshold)) [
  | inl z ↦ rw z refl
  | inr z ↦ rw (z, GoMap.lookup-insert alias b unknown_state h.agents) (ground arith)
]
