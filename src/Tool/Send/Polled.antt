-- ===== src/Tool/Send/Polled.antt =====
-- What a task that an agent answers with comes to, at once or after its polling.
use a2a_gateway_mcp.Prelude.{
  ℕ, ◌≡◌, refl, ap, ◌∙◌, sym, true, false, none, some, List, [], ◌∷◌, ◌++◌, String, ◌==◌, All,
}
use a2a_gateway_mcp.Prelude.Int.{ℤ}
use a2a_gateway_mcp.Errors.{errorf, ok}
use a2a_gateway_mcp.A2a.{
  TaskState, submitted, working, completed, failed, canceled, input_required, auth_required,
  rejected, other, Task,
}
use a2a_gateway_mcp.Registry.Resolved.{ResolveResult}
use a2a_gateway_mcp.Tool.Parts.{Rendering}
use a2a_gateway_mcp.Tool.Poll.{
  Round, tick, ends_polling, poll_task_completion, poll_decides, GoesOn, deadline, is_after,
}
use a2a_gateway_mcp.Tool.Send.{Environment, Polling, Live}
use a2a_gateway_mcp.Tool.Send.Answer.{
  settled, settled_late-settled, is_pending, keeping, after_polling, still_running, unknown_state,
  handle_task_result,
}
use a2a_gateway_mcp.Tool.Stream.Handling.{Handled}

-- A state at which the polling ends settles the task, whatever is said of the others.
settled_same :
    (X : Rendering) (state : TaskState) (task : Task) (a b : Handled)
    → ends_polling state ≡ true
    → (is_pending state ≡ false) × (settled X state task a ≡ settled X state task b)
unfolding settled is_pending ends_polling
settled_same X completed task a b h = (refl, refl)
settled_same X input_required task a b h = (refl, refl)
settled_same X auth_required task a b h = (refl, refl)
settled_same X failed task a b h = (refl, refl)
settled_same X canceled task a b h = (refl, refl)
settled_same X submitted task a b h = cc h
settled_same X working task a b h = cc h
settled_same X rejected task a b h = cc h
settled_same X (other s) task a b h = cc h

module _ (E : Environment) where
  open E use {sdk, sprintf, show_duration, rendering, World, poll}

  pub polled_task :
      (client : sdk.Client) (task : Task) (resolved : ResolveResult) (agent : String) (timeout : ℤ)
      (s : Live E) (polling : Polling) (w : World)
      → is_pending task.status.state ≡ true
      → task.id == "" ≡ false
      → poll client task.id s.world ≡ (polling, w)
      → handle_task_result E client task resolved agent timeout s
        ≡ after_polling E task resolved agent
            (poll_task_completion sprintf polling.start timeout
              (show_duration timeout)
              polling.rounds)
            (record s { world = w })
  unfolding handle_task_result
  polled_task client task resolved agent timeout s polling w pending named e =
      rw (pending, named, e) refl

  pub at_once :
      (client : sdk.Client) (task : Task) (resolved : ResolveResult) (agent : String) (timeout : ℤ)
      (s : Live E)
      → is_pending task.status.state ≡ false
      → handle_task_result E client task resolved agent timeout s
        ≡ some (
          settled rendering task.status.state task (unknown_state E task.status.state),
          keeping E resolved agent task.context_id s,
        )
  unfolding handle_task_result
  at_once client task resolved agent timeout s settles = rw settles refl

  -- A task that is not final, and is polled until it completes, fails, is canceled or waits for the
  -- user before the deadline, is handled just as if the agent had answered with that final task at
  -- once: same output, same error, same context kept.
  pub polled_as_answered :
      (client : sdk.Client) (task final : Task) (resolved : ResolveResult) (agent : String)
      (timeout : ℤ) (s : Live E) (start now : ℕ) (waits post : List Round) (w : World)
      → is_pending task.status.state ≡ true
      → task.id == "" ≡ false
      → poll client task.id s.world
        ≡ (record { start = start; rounds = waits ++ tick now (ok final) ∷ post }, w)
      → All (GoesOn sprintf (deadline start timeout)) waits
      → is_after now (deadline start timeout) ≡ false
      → ends_polling final.status.state ≡ true
      → handle_task_result E client task resolved agent timeout s
        ≡ handle_task_result E client final resolved agent timeout (record s { world = w })
  polled_as_answered client task final resolved agent timeout s start now waits post w pending named
        polls goes_on early ends =
      let reached : poll_task_completion sprintf start timeout (show_duration timeout)
            (waits ++ tick now (ok final) ∷ post)
          ≡ some (some final, none) =
        (poll_decides sprintf start now timeout (show_duration timeout) waits post final
          (errorf "" []) goes_on ends).2
        ∙ rw early refl in
      let (settles, same) =
        settled_same rendering final.status.state final (still_running E final)
          (unknown_state E final.status.state) ends in
      polled_task client task resolved agent timeout s
        (record { start = start; rounds = waits ++ tick now (ok final) ∷ post }) w pending named
        polls
      ∙ ap (λ out. after_polling E task resolved agent out (record s { world = w })) reached
      ∙ ap (λ h. some (h, keeping E resolved agent final.context_id (record s { world = w })))
          (settled_late-settled rendering final.status.state final (still_running E final) ∙ same)
      ∙ sym (at_once client final resolved agent timeout (record s { world = w }) settles)
