-- ===== src/Tool/Send/Recording.antt =====
-- What a direct send records: the history and the health of the agent.
use a2a_gateway_mcp.Prelude.{
  ◌≡◌, refl, ap, ◌∙◌, Bool, true, false, not, ◌&&◌, Option, none, some, String, ◌==◌, if◌then◌else◌,
  Bool-cases, inl, inr,
}
use a2a_gateway_mcp.Prelude.Int.{ℤ}
use a2a_gateway_mcp.Errors.{Error}
use a2a_gateway_mcp.A2a.{
  TaskState, submitted, working, completed, failed, canceled, input_required, auth_required,
  rejected, other, Task,
}
use a2a_gateway_mcp.History.Recorder.{RecordInput}
use a2a_gateway_mcp.Registry.Resolved.{ResolveResult}
use a2a_gateway_mcp.Tool.Background.{
  SendMessageResult, task_result, message_result, unrecognized_result,
}
use a2a_gateway_mcp.Tool.Input.{summarize_message}
use a2a_gateway_mcp.Tool.Poll.{poll_task_completion}
use a2a_gateway_mcp.Tool.Send.{Environment, SendMessageInput, SendRequest, Live}
use a2a_gateway_mcp.Tool.Send.Answer.{
  unknown_state, still_running, last_known, is_pending, settled, settled_late-settled, keeping,
  after_polling, handle_task_result, recorded, process_response, record_history, history_input,
  extract_response_context_id, extract_response_task_id, extract_result_text,
}
use a2a_gateway_mcp.Tool.Stream.Handling.{
  CallError, format_message_response, SendMessageOutput, Handled,
}

module _ (E : Environment) where
  open E use {sdk, rendering, record_input}

  -- Where the handler returns, the outcome has the property.
  abbrev pub Always : (Handled × Live E → Type 0) → Option (Handled × Live E) → Type 0
  Always P none = Unit
  Always P (some out) = P out

  -- No tool result, the health as it was, nothing in the history.
  abbrev Quiet : Live E → Handled × Live E → Type 0
  Quiet s (h, s') = (h.result ≡ none) × (s'.stores.health ≡ s.stores.health) × (s'.log ≡ s.log)

  -- One entry more, of the agent, with the identifiers of the output, no text and no error.
  abbrev pub IsEntry : SendMessageInput → Option SendMessageOutput → RecordInput → Type 0
  IsEntry input structured i =
      (i.alias ≡ input.agent)
      × (i.sent ≡ summarize_message input.message input.parts)
      × (i.context_id ≡ extract_response_context_id structured)
      × (i.task_id ≡ extract_response_task_id structured)
      × (i.response ≡ "")
      × (i.is_error ≡ false)

  abbrev pub Noted : SendMessageInput → Live E → Handled × Live E → Type 0
  Noted input s (h, s') =
      (s'.stores.health ≡ s.stores.health)
      × ((i : RecordInput) × (s'.log ≡ record_input i s.log) × IsEntry input h.structured i)

  keeping-Quiet :
      (resolved : ResolveResult) (agent context_id : String) (s : Live E)
      → ((keeping E resolved agent context_id s).stores.health ≡ s.stores.health)
        × ((keeping E resolved agent context_id s).log ≡ s.log)
  keeping-Quiet resolved agent context_id s =
      elim (Bool-cases (resolved.is_alias && not (context_id == ""))) [
        | inl q ↦ rw q (refl, refl)
        | inr q ↦ rw q (refl, refl)
      ]

  settled_no_result :
      (state : TaskState) (task : Task) (others : Handled)
      → others.result ≡ none
      → (settled rendering state task others).result ≡ none
  unfolding settled
  settled_no_result completed task others h = refl
  settled_no_result input_required task others h = refl
  settled_no_result auth_required task others h = refl
  settled_no_result failed task others h = refl
  settled_no_result canceled task others h = refl
  settled_no_result submitted task others h = h
  settled_no_result working task others h = h
  settled_no_result rejected task others h = h
  settled_no_result (other s) task others h = h

  either-Always :
      (P : Handled × Live E → Type 0) (b : Bool) (x y : Option (Handled × Live E))
      → Always P x
      → Always P y
      → Always P (if b then x else y)
  either-Always P true x y p q = p
  either-Always P false x y p q = q

  after_polling-Quiet :
      (sent : Task) (resolved : ResolveResult) (agent : String)
      (out : Option (Option Task × Option Error)) (s : Live E)
      → Always (Quiet s) (after_polling E sent resolved agent out s)
  after_polling-Quiet sent resolved agent none s = tt
  after_polling-Quiet sent resolved agent (some (polled, some e)) s = (refl, refl, refl)
  after_polling-Quiet sent resolved agent (some (polled, none)) s =
      let task = last_known sent polled in
      (
        ap (λ h. h.result)
              (settled_late-settled rendering task.status.state task (still_running E task))
            ∙ settled_no_result task.status.state task (still_running E task) refl,
        (keeping-Quiet resolved agent task.context_id s).0,
        (keeping-Quiet resolved agent task.context_id s).1,
      )

  handle_task-Quiet :
      (client : sdk.Client) (task : Task) (resolved : ResolveResult) (agent : String) (timeout : ℤ)
      (s : Live E)
      → Always (Quiet s) (handle_task_result E client task resolved agent timeout s)
  unfolding handle_task_result
  handle_task-Quiet client task resolved agent timeout s =
      let (polling, w) = E.poll client task.id s.world in
      let (health, log) = keeping-Quiet resolved agent task.context_id s in
      either-Always (Quiet s) (is_pending task.status.state) _ _
        (either-Always (Quiet s) (task.id == "") _ _ (refl, health, log)
          (after_polling-Quiet task resolved agent
            (poll_task_completion E.sprintf polling.start timeout (E.show_duration timeout)
              polling.rounds)
            (record s { world = w })))
        (
          settled_no_result task.status.state task (unknown_state E task.status.state) refl,
          health,
          log,
        )

  pub history-IsEntry :
      (input : SendMessageInput) (result : Option CallError) (structured : Option SendMessageOutput)
      → result ≡ none
      → IsEntry input structured (history_input E input result structured)
  unfolding history_input extract_result_text
  history-IsEntry input none structured h = (refl, refl, refl, refl, refl, refl)
  history-IsEntry input (some e) structured h = cc h

  recorded-Noted :
      (input : SendMessageInput) (s : Live E) (out : Option (Handled × Live E))
      → Always (Quiet s) out
      → Always (Noted input s) (recorded E input out)
  unfolding record_history
  recorded-Noted input s none q = tt
  recorded-Noted input s (some (h, s')) (no_result, health, log) = (
    health,
    (
      history_input E input h.result h.structured,
      ap (record_input (history_input E input h.result h.structured)) log,
      history-IsEntry input h.result h.structured no_result,
    ),
  )

  pub process-Noted :
      (input : SendMessageInput) (sr : SendRequest E) (answer : SendMessageResult) (s : Live E)
      → Always (Noted input s) (process_response E input sr answer s)
  unfolding process_response record_history
  process-Noted input sr (task_result task) s = recorded-Noted input s _ (
      handle_task-Quiet sr.client task sr.resolved input.agent
        (E.effective_poll_timeout input.poll_timeout_seconds) s)
  process-Noted input sr (message_result msg) s =
      let (health, log) = keeping-Quiet sr.resolved input.agent msg.context_id s in
      let structured = some (format_message_response msg) in
      (
        health,
        (
          history_input E input none structured,
          ap (record_input (history_input E input none structured)) log,
          history-IsEntry input none structured refl,
        ),
      )
  process-Noted input sr unrecognized_result s =
      (refl, (history_input E input none none, refl, history-IsEntry input none none refl))
