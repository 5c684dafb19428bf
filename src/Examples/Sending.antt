-- ===== src/Examples/Sending.antt =====
-- A task that is polled three times, and an asynchronous send that polls it.
use a2a_gateway_mcp.Prelude.{◌≡◌, ◌≢◌, refl, true, none, some, List, [], ◌∷◌, ◌++◌, String, All}
use a2a_gateway_mcp.Prelude.Int.{pos}
use a2a_gateway_mcp.Errors.{ok, err, errorf, Arg}
use a2a_gateway_mcp.A2a.{TaskState, working, completed, Task}
use a2a_gateway_mcp.Registry.Inbox.{new_memory_inbox}
use a2a_gateway_mcp.Tool.Poll.{
  Round, context_done, tick, ends_polling, poll_loop, poll_task_completion, poll_decides, GoesOn,
  deadline, poll_canceled, poll_failed,
}
use a2a_gateway_mcp.Tool.Background.{task_result, unrecognized_result, background_send_and_poll}
use a2a_gateway_mcp.Tool.Background.Effects.{background-deposit, Adds}

abbrev pub plain : String → List Arg → String
plain format args = format

abbrev pub state_name : TaskState → String
state_name completed = "TASK_STATE_COMPLETED"
state_name _ = "TASK_STATE_WORKING"

abbrev pub in_state : TaskState → Task
in_state state = record {
  id = "t-1";
  context_id = "c-1";
  status = record { state = state; message = none };
  artifacts = [];
}

abbrev pub waits : List Round
waits = tick 2 (ok (in_state working)) ∷ (tick 4 (ok (in_state working)) ∷ [])

pub waits-GoesOn : All (GoesOn plain (deadline 0 (pos 10))) waits
unfolding ends_polling
waits-GoesOn = ((refl, refl), ((refl, refl), tt))

pub completed_ends : ends_polling completed ≡ true
unfolding ends_polling
completed_ends = refl

poll_decides_example :
    (poll_task_completion plain 0 (pos 10) "10ns" (waits ++ context_done ∷ [])
      ≡ some (some (in_state working), some poll_canceled))
    × (poll_task_completion plain 0 (pos 10) "10ns" (waits ++ tick 6 (err (errorf "reset" [])) ∷ [])
        ≡ some (some (in_state working), some (poll_failed plain (errorf "reset" []))))
    × (poll_task_completion plain 0 (pos 10) "10ns" (waits ++ tick 6 (ok (in_state completed)) ∷ [])
        ≡ some (some (in_state completed), none))
    × (poll_task_completion plain 0 (pos 10) "10ns" waits ≡ none)
poll_decides_example =
    poll_decides plain 0 6 (pos 10) "10ns" waits [] (in_state completed) (errorf "reset" [])
      waits-GoesOn completed_ends

polled :
    poll_task_completion plain 0 (pos 10) "10ns" (waits ++ tick 6 (ok (in_state completed)) ∷ [])
    ≡ some (some (in_state completed), none)
unfolding poll_task_completion poll_loop ends_polling
polled = refl

not_unrecognized : ok (task_result (in_state working)) ≢ ok unrecognized_result
not_unrecognized e = cc e

background-deposit_example : Adds state_name plain 7 "a" (new_memory_inbox (pos 0)) (
    background_send_and_poll state_name plain 0
      (pos 10)
      "10ns"
      (waits ++ tick 6 (ok (in_state completed)) ∷ [])
      7
      "a"
      (ok (task_result (in_state working)))
      (new_memory_inbox (pos 0)))
background-deposit_example =
    background-deposit state_name plain 0 (pos 10) "10ns"
      (waits ++ tick 6 (ok (in_state completed)) ∷ []) 7 "a" (ok (task_result (in_state working)))
      (new_memory_inbox (pos 0)) (some (in_state completed), none) polled not_unrecognized
