-- ===== src/Tool/Send/Success.antt =====
-- What an answer without an error is, on the direct transport.
use a2a_gateway_mcp.Prelude.{
  subst, sym, subst, ◌≢◌, ◌≡◌, refl, Bool, true, false, Option, none, some, String, ◌==◌,
  if◌then◌else◌, inl, inr, ◌⊎◌,
}
use a2a_gateway_mcp.Prelude.Int.{ℤ}
use a2a_gateway_mcp.Errors.{Error}
use a2a_gateway_mcp.A2a.{
  TaskState, submitted, working, completed, failed, canceled, input_required, auth_required,
  rejected, other, Message, Task,
}
use a2a_gateway_mcp.Registry.Resolved.{ResolveResult}
use a2a_gateway_mcp.Tool.Background.{
  SendMessageResult, task_result, message_result, unrecognized_result,
}
use a2a_gateway_mcp.Tool.Poll.{poll_task_completion}
use a2a_gateway_mcp.Tool.Send.{Environment, SendMessageInput, SendRequest, Live}
use a2a_gateway_mcp.Tool.Send.Answer.{
  still_running, last_known, after_polling, handled, recorded, settled, settled_late-settled,
  is_pending, handle_task_result, process_response, unknown_state,
}
use a2a_gateway_mcp.Tool.Stream.Handling.{
  of_task, format_interrupted_response, format_input_required_response, format_message_response,
  format_task_response, Handled,
}

module _ (E : Environment) where
  -- The states in which a task is reported without an error.
  abbrev pub IsReported : TaskState → Type 0
  IsReported state = (state ≡ completed) ⊎ (state ≡ input_required) ⊎ (state ≡ auth_required)

  -- The output is an answer that the agent has brought to its end, or left to the user.
  pub data Success : Handled → Type 0 where
    message_success : (msg : Message) → Success (handled (some (format_message_response msg)) none)
    task_success :
        (task : Task) → IsReported task.status.state → Success (handled (some (of_task task)) none)

  settled-Success :
      (state : TaskState) (task : Task) (others : Handled)
      → task.status.state ≡ state
      → others.error ≢ none
      → (settled E.rendering state task others).error ≡ none
      → Success (settled E.rendering state task others)
  unfolding settled format_task_response format_input_required_response format_interrupted_response
  settled-Success completed task others e n h = task_success task (inl e)
  settled-Success input_required task others e n h = task_success task (inr (inl e))
  settled-Success auth_required task others e n h = task_success task (inr (inr e))
  settled-Success failed task others e n h = cc h
  settled-Success canceled task others e n h = cc h
  settled-Success submitted task others e n h = absurd (n h)
  settled-Success working task others e n h = absurd (n h)
  settled-Success rejected task others e n h = absurd (n h)
  settled-Success (other s) task others e n h = absurd (n h)

  -- Where a handler returns without an error, it has a success.
  abbrev Sound : Option (Handled × Live E) → Type 0
  Sound none = Unit
  Sound (some (h, s)) = h.error ≡ none → Success h

  after_polling-Sound :
      (sent : Task) (resolved : ResolveResult) (agent : String)
      (out : Option (Option Task × Option Error)) (s : Live E)
      → Sound (after_polling E sent resolved agent out s)
  after_polling-Sound sent resolved agent none s = tt
  after_polling-Sound sent resolved agent (some (polled, some e)) s = λ h. cc h
  after_polling-Sound sent resolved agent (some (polled, none)) s =
      let task = last_known sent polled in
      subst (λ h. h.error ≡ none → Success h)
        (sym (settled_late-settled E.rendering task.status.state task (still_running E task)))
        (settled-Success task.status.state task (still_running E task) refl (λ h. cc h))

  pending-Sound :
      (b : Bool) (a c : Option (Handled × Live E)) → Sound a → Sound c → Sound (if b then a else c)
  pending-Sound true a c p q = p
  pending-Sound false a c p q = q

  handle_task-Sound :
      (client : E.sdk.Client) (task : Task) (resolved : ResolveResult) (agent : String)
      (timeout : ℤ) (s : Live E)
      → Sound (handle_task_result E client task resolved agent timeout s)
  unfolding handle_task_result
  handle_task-Sound client task resolved agent timeout s =
      let (polling, w) = E.poll client task.id s.world in
      pending-Sound (is_pending task.status.state) _ _
        (pending-Sound (task.id == "") _ _ (λ h. cc h)
          (after_polling-Sound task resolved agent
            (poll_task_completion E.sprintf polling.start timeout (E.show_duration timeout)
              polling.rounds)
            (record s { world = w })))
        (settled-Success task.status.state task (unknown_state E task.status.state) refl
          (λ h. cc h))

  recorded-Sound :
      (input : SendMessageInput) (out : Option (Handled × Live E))
      → Sound out
      → Sound (recorded E input out)
  recorded-Sound input none p = tt
  recorded-Sound input (some (h, s)) p = p

  process-Sound :
      (input : SendMessageInput) (sr : SendRequest E) (answer : SendMessageResult) (s : Live E)
      → Sound (process_response E input sr answer s)
  unfolding process_response format_message_response
  process-Sound input sr (task_result task) s = recorded-Sound input _ (
      handle_task-Sound sr.client task sr.resolved input.agent
        (E.effective_poll_timeout input.poll_timeout_seconds) s)
  process-Sound input sr (message_result msg) s = λ h. message_success msg
  process-Sound input sr unrecognized_result s = λ h. cc h

  -- An answer is handled without an error only as a message, or as a task that has completed or waits
  -- for the user; a task that failed, was canceled, is unknown or did not come to an end in time has
  -- an error.
  pub answer-Success :
      (input : SendMessageInput) (sr : SendRequest E) (answer : SendMessageResult) (h : Handled)
      (s s' : Live E)
      → process_response E input sr answer s ≡ some (h, s')
      → h.error ≡ none
      → Success h
  answer-Success input sr answer h s s' e = subst Sound e (process-Sound input sr answer s)
