-- ===== src/Tool/Tasks/Outcome.antt =====
-- What get_task reports, its retry included.
use a2a_gateway_mcp.Prelude.{
  ◌==◌, subst, sym, [], ◌≡◌, ◌≢◌, refl, ap, ◌∙◌, Bool, false, Option, none, some, String,
  if◌then◌else◌, Bool-cases, inl, inr,
}
use a2a_gateway_mcp.GoMap
use a2a_gateway_mcp.A2a.{
  Task, Message, TaskState, submitted, working, completed, failed, canceled, input_required,
  auth_required, rejected, other,
}
use a2a_gateway_mcp.Tool.Send.Answer.{failure_text}
use a2a_gateway_mcp.Errors.{errorf, Error, Result, ok, err}
use a2a_gateway_mcp.Registry.Agents.{AgentRegistry}
use a2a_gateway_mcp.Registry.Clients.{A2aClients, ClientResolver}
use a2a_gateway_mcp.Registry.Clients.Cache.{fresh}
use a2a_gateway_mcp.Registry.Resolved.{ResolveResult}
use a2a_gateway_mcp.Tool.Parts.{extract_status_message_text, Rendering, handle_a2a_error}
use a2a_gateway_mcp.Tool.Reading.Effects.{unnamed}
use a2a_gateway_mcp.Tool.Retry.{is_auth_error, needs_retry, retry_once}
use a2a_gateway_mcp.Tool.Session.{resolve_agent}
use a2a_gateway_mcp.Tool.Tasks.{got, get_with, state_error, shown, get_task}
use a2a_gateway_mcp.Validate.{ParsedUrl}

module _ (S : A2aClients) (parse : String → ParsedUrl) {W : Type 0} (X : Rendering)
    (get : S.Client → String → W → Result Task × W) where
  abbrev refused : Result Task → Bool
  refused (ok task) = false
  refused (err e) = is_auth_error e

  -- The answer that counts: after an error of authentication, that of the one more try.
  abbrev pub last_answer : S.Client → S.Client → String → W → Result Task × W
  last_answer stale renewed task_id w =
      let first = get stale task_id w in
      if refused first.0 then get renewed task_id first.1 else first

  -- The task of an answer with the error of its state, or the error of the call.
  abbrev pub reported : Result Task → Option Task × Option Error
  reported (ok task) = (some task, state_error S parse X get task)
  reported (err e) = (none, some (handle_a2a_error e))

  last_got :
      (renewed : S.Client) (task_id : String) (first : Result Task × W)
      → let f = got S parse X get first in
        let g = get_with S parse X get task_id renewed f.1 in
        let last =
          got S parse X get (if refused first.0 then get renewed task_id first.1 else first) in
        ((if needs_retry f.0 then g.0 else f.0) ≡ last.0)
        × ((if needs_retry f.0 then g.1 else f.1) ≡ last.1)
  last_got renewed task_id (ok task, w) = (refl, refl)
  last_got renewed task_id (err e, w) = elim (Bool-cases (is_auth_error e)) [
    | inl q ↦ rw q (refl, refl)
    | inr q ↦ rw q (refl, refl)
  ]

  shown-got :
      (out : Result Task × W)
      → let g = got S parse X get out in
        (shown S parse X get g.0 g.1.0 ≡ reported out.0) × (g.1.1 ≡ out.1)
  shown-got (ok task, w) = (refl, refl)
  shown-got (err e, w) = (refl, refl)

  shown_ap :
      {e e' : Option Error} {t t' : Option Task}
      → e ≡ e'
      → t ≡ t'
      → shown S parse X get e t ≡ shown S parse X get e' t'
  shown_ap p q i = shown S parse X get (p i) (q i)

  -- Why a task failed: the text of its status, or that it failed if there is none.
  abbrev pub reason : Option Message → String
  reason none = "task failed"
  reason (some message) =
      if extract_status_message_text X message == ""
      then "task failed"
      else extract_status_message_text X message

  -- The error that goes with a task.
  abbrev pub Explains : Task → TaskState → Option Error → Type 0
  Explains task failed e = e ≡ some (errorf (reason task.status.message) [])
  Explains task canceled e = e ≡ some (errorf "task was canceled" [])
  Explains task submitted e = e ≡ none
  Explains task working e = e ≡ none
  Explains task completed e = e ≡ none
  Explains task input_required e = e ≡ none
  Explains task auth_required e = e ≡ none
  Explains task rejected e = e ≡ none
  Explains task (other name) e = e ≡ none

  -- What is told of an answer: the task with its error, or no task and the error of the call.
  abbrev pub Tells : Result Task → Option Task × Option Error → Type 0
  Tells (ok task) out = (out.0 ≡ some task) × Explains task task.status.state out.1
  Tells (err e) out = (out.0 ≡ none) × (out.1 ≡ some (handle_a2a_error e))

  failure_reason : (m : Option Message) → failure_text X m ≡ reason m
  failure_reason none = refl
  failure_reason (some message) = refl

  state-Explains :
      (task : Task) (state : TaskState)
      → task.status.state ≡ state
      → Explains task state (state_error S parse X get task)
  state-Explains task failed e =
      rw e (ap (λ t. some (errorf t [])) (failure_reason task.status.message))
  state-Explains task canceled e = rw e refl
  state-Explains task submitted e = rw e refl
  state-Explains task working e = rw e refl
  state-Explains task completed e = rw e refl
  state-Explains task input_required e = rw e refl
  state-Explains task auth_required e = rw e refl
  state-Explains task rejected e = rw e refl
  state-Explains task (other name) e = rw e refl

  reported-Tells : (r : Result Task) → Tells r (reported r)
  reported-Tells (ok task) = (refl, state-Explains task task.status.state refl)
  reported-Tells (err e) = (refl, refl)

  -- Where a client is cached for the agent's URL and a new one can be made, get_task reports the answer
  -- of its last try: no task and the error of the call, or the task; with the task goes an error that
  -- says why if it failed, one that says so if it was canceled, and none in any other state.
  pub get_task-reported :
      (agent task_id : String) (agents : AgentRegistry) (resolved : ResolveResult)
      (stale renewed : S.Client) (r : ClientResolver S) (w : W)
      → agent ≢ ""
      → task_id ≢ ""
      → resolve_agent parse agents agent ≡ ok resolved
      → GoMap.lookup resolved.url r.clients ≡ some stale
      → fresh S agents resolved ≡ ok renewed
      → let out = get_task S parse X get agent task_id agents r w in
        let last = last_answer stale renewed task_id w in Tells last.0 out.0 × (out.1.1 ≡ last.1)
  unfolding get_task
  get_task-reported agent task_id agents resolved stale renewed r w named given target cached made =
      let no_agent = unnamed agent named in
      let no_task = unnamed task_id given in
      let before : Option Task × W = (none, w) in
      let (e, held, stored) =
        retry_once S (get_with S parse X get task_id) agents resolved stale renewed r before cached
          made in
      let (e', held') = last_got renewed task_id (get stale task_id w) in
      let (told, world) = shown-got (last_answer stale renewed task_id w) in
      let same_error = e ∙ e' in
      let same_rest = held ∙ held' in
      rw (get_task, no_agent, no_task, target)
        (
          subst (Tells (last_answer stale renewed task_id w).0)
              (sym (shown_ap same_error (ap (λ p. p.0) same_rest) ∙ told))
              (reported-Tells (last_answer stale renewed task_id w).0),
          ap (λ p. p.1) same_rest ∙ world,
        )
