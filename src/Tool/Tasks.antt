-- ===== src/Tool/Tasks.antt =====
-- internal/tool/tool_get_task.go and internal/tool/tool_cancel_task.go: the task of an agent. The
-- calls of the SDK's client are functions on a world of agents.
pub mod Outcome
use a2a_gateway_mcp.Prelude.{Bool, Option, none, some, List, [], ◌∷◌, String, ◌==◌, if◌then◌else◌}
use a2a_gateway_mcp.Errors.{Error, Result, ok, err, errorf, text, Formatted}
use a2a_gateway_mcp.A2a.{
  TaskState, submitted, working, completed, failed, canceled, input_required, auth_required,
  rejected, other, Task,
}
use a2a_gateway_mcp.Registry.Agents.{AgentRegistry}
use a2a_gateway_mcp.Registry.Clients.{A2aClients, ClientResolver}
use a2a_gateway_mcp.Registry.Resolved.{ResolveResult}
use a2a_gateway_mcp.Tool.Parts.{Rendering, handle_a2a_error}
use a2a_gateway_mcp.Tool.Retry.{resolve_client_with_auth_retry}
use a2a_gateway_mcp.Tool.Send.Answer.{failure_text}
use a2a_gateway_mcp.Tool.Session.{resolve_agent}
use a2a_gateway_mcp.Validate.{ParsedUrl}

abbrev pub identified : String → String → Option Error
identified agent task_id =
    if agent == ""
    then some (errorf "agent identifier is required" [])
    else if task_id == ""
    then some (errorf "task_id is required" [])
    else none

module _ (S : A2aClients) (parse : String → ParsedUrl) {W : Type 0} where
  module _ (X : Rendering) (get : S.Client → String → W → Result Task × W) where
    abbrev pub got : Result Task × W → Option Error × (Option Task × W)
    got (ok task, w) = (none, (some task, w))
    got (err e, w) = (some e, (none, w))

    -- The call that is retried; the task is nil until a call has returned one.
    abbrev pub get_with : String → S.Client → Option Task × W → Option Error × (Option Task × W)
    get_with task_id client held = got (get client task_id held.1)

    abbrev pub state_error : Task → Option Error
    state_error task = elim task.status.state [
      | failed ↦ some (errorf (failure_text X task.status.message) [])
      | canceled ↦ some (errorf "task was canceled" [])
      | submitted ↦ none
      | working ↦ none
      | completed ↦ none
      | input_required ↦ none
      | auth_required ↦ none
      | rejected ↦ none
      | other name ↦ none
    ]

    -- The task and the error of the handler; without an error of the call there is a task.
    abbrev pub shown : Option Error → Option Task → Option Task × Option Error
    shown (some e) task = (none, some (handle_a2a_error e))
    shown none none = (none, none)
    shown none (some task) = (some task, state_error task)

    abbrev pub fetched :
        String
        → AgentRegistry
        → Result ResolveResult
        → ClientResolver S
        → W
        → (Option Task × Option Error) × (ClientResolver S × W)
    fetched task_id agents (err e) r w = ((none, some e), (r, w))
    fetched task_id agents (ok resolved) r w =
        let (e, (r', (task, w'))) =
          resolve_client_with_auth_retry S (get_with task_id) agents resolved r (none, w) in
        (shown e task, (r', w'))

    -- GetTaskTool.Handle
    unfoldable pub get_task :
        String
        → String
        → AgentRegistry
        → ClientResolver S
        → W
        → (Option Task × Option Error) × (ClientResolver S × W)
    unfolding resolve_agent resolve_client_with_auth_retry handle_a2a_error
    get_task agent task_id agents r w = elim (identified agent task_id) [
      | some e ↦ ((none, some e), (r, w))
      | none ↦ fetched task_id agents (resolve_agent parse agents agent) r w
    ]

  module _ (cancel : S.Client → String → W → Option Error × W) where
    abbrev pub canceled_output :
        String → Option Error × (ClientResolver S × W) → Result Formatted × (ClientResolver S × W)
    canceled_output task_id (some e, rw') = (err (handle_a2a_error e), rw')
    canceled_output task_id (none, rw') =
        (ok (record { format = "Task %s has been canceled"; args = text task_id ∷ [] }), rw')

    abbrev pub canceling :
        String
        → AgentRegistry
        → Result ResolveResult
        → ClientResolver S
        → W
        → Result Formatted × (ClientResolver S × W)
    canceling task_id agents (err e) r w = (err e, (r, w))
    canceling task_id agents (ok resolved) r w =
        canceled_output task_id
          (resolve_client_with_auth_retry S (λ client. cancel client task_id) agents resolved r w)

    -- CancelTaskTool.Handle
    unfoldable pub cancel_task :
        String
        → String
        → AgentRegistry
        → ClientResolver S
        → W
        → Result Formatted × (ClientResolver S × W)
    unfolding resolve_agent resolve_client_with_auth_retry handle_a2a_error
    cancel_task agent task_id agents r w = elim (identified agent task_id) [
      | some e ↦ (err e, (r, w))
      | none ↦ canceling task_id agents (resolve_agent parse agents agent) r w
    ]
