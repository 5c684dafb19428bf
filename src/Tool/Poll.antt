-- ===== src/Tool/Poll.antt =====
-- internal/tool/tool_send.go: the polling of a task. A round of the loop is what its `select` meets:
-- the end of the context, or a tick of the clock with the time of that moment and the answer of
-- GetTask. The rounds are a list, in which every run of the loop that has ended so far is; `none` says
-- that the loop still waits after them.
pub mod Termination
use a2a_gateway_mcp.Prelude.{
  ℕ, ◌+◌, ◌≡◌, refl, ap, ◌∙◌, Bool, true, false, Option, none, some, List, [], ◌∷◌, ◌++◌, String,
  if◌then◌else◌, ltb, All, Bool-cases, inl, inr,
}
use mathlib.Core.List.{append-nil}
use a2a_gateway_mcp.Prelude.{sym, map}
use a2a_gateway_mcp.Prelude.Int.{ℤ, pos, negsuc}
use a2a_gateway_mcp.Errors.{Error, Result, ok, err, errorf, text, Arg, error_text}
use a2a_gateway_mcp.A2a.{
  TaskState, submitted, working, completed, failed, canceled, input_required, auth_required,
  rejected, other, Task,
}

pub data Round : Type 0 where
  context_done : Round
  tick : (now : ℕ) (reply : Result Task) → Round

-- The states at which the polling ends.
unfoldable pub ends_polling : TaskState → Bool
ends_polling completed = true
ends_polling failed = true
ends_polling canceled = true
ends_polling input_required = true
ends_polling auth_required = true
ends_polling rejected = false
ends_polling submitted = false
ends_polling working = false
ends_polling (other s) = false

-- The deadline: none for a timeout that is not positive.
abbrev pub deadline : ℕ → ℤ → Option ℕ
deadline start (negsuc n) = none
deadline start (pos n) = if ltb 0 n then some (start + n) else none

abbrev pub is_after : ℕ → Option ℕ → Bool
is_after now none = false
is_after now (some d) = ltb d now

abbrev pub poll_canceled : Error
poll_canceled = errorf "timeout waiting for task completion: context canceled" []

abbrev pub poll_timeout : String → Error
poll_timeout timeout = errorf "timeout waiting for task completion after %s" (text timeout ∷ [])

module _ (sprintf : String → List Arg → String) where
  abbrev pub poll_failed : Error → Error
  poll_failed e = errorf "failed to poll task status: %v" (text (error_text sprintf e) ∷ [])

  -- The loop, with the last task that was polled: that task and the error at its end.
  unfoldable pub poll_loop :
      String → Option ℕ → List Round → Option Task → Option (Option Task × Option Error)
  unfolding ends_polling
  poll_loop timeout limit [] last = none
  poll_loop timeout limit (context_done ∷ rounds) last = some (last, some poll_canceled)
  poll_loop timeout limit (tick now (err e) ∷ rounds) last =
      if is_after now limit
      then some (last, some (poll_timeout timeout))
      else some (last, some (poll_failed e))
  poll_loop timeout limit (tick now (ok task) ∷ rounds) last =
      let rest = poll_loop timeout limit rounds (some task) in
      if is_after now limit
      then some (last, some (poll_timeout timeout))
      else if ends_polling task.status.state
      then some (some task, none)
      else rest

  unfoldable pub poll_task_completion :
      ℕ → ℤ → String → List Round → Option (Option Task × Option Error)
  unfolding poll_loop
  poll_task_completion start timeout shown rounds =
      poll_loop shown (deadline start timeout) rounds none

  -- A round that goes on: a tick before the deadline, and a task whose state does not end the polling.
  abbrev pub GoesOn : Option ℕ → Round → Type 0
  GoesOn limit context_done = ⊥
  GoesOn limit (tick now (err e)) = ⊥
  GoesOn limit (tick now (ok task)) =
      (is_after now limit ≡ false) × (ends_polling task.status.state ≡ false)

  -- The task of the last round that has one.
  abbrev pub latest : List Round → Option Task → Option Task
  latest [] last = last
  latest (context_done ∷ rounds) last = latest rounds last
  latest (tick now (err e) ∷ rounds) last = latest rounds last
  latest (tick now (ok task) ∷ rounds) last = latest rounds (some task)

  poll-append :
      (timeout : String) (limit : Option ℕ) (waits rest : List Round) (last : Option Task)
      → All (GoesOn limit) waits
      → poll_loop timeout limit (waits ++ rest) last
        ≡ poll_loop timeout limit rest (latest waits last)
  unfolding poll_loop
  poll-append timeout limit [] rest last h = refl
  poll-append timeout limit (tick now (ok task) ∷ waits) rest last h =
      rw (h.0.0, h.0.1) (poll-append timeout limit waits rest (some task) h.1)
  poll-append timeout limit (tick now (err e) ∷ waits) rest last h = absurd h.0
  poll-append timeout limit (context_done ∷ waits) rest last h = absurd h.0

  loop-nil :
      (shown : String) (limit : Option ℕ) (last : Option Task)
      → poll_loop shown limit [] last ≡ none
  unfolding poll_loop
  loop-nil shown limit last = refl

  all_rejected :
      (shown : String) (polls : List (ℕ × Task)) (last : Option Task)
      → All (λ p. p.1.status.state ≡ rejected) polls
      → poll_loop shown none (map (λ p. tick p.0 (ok p.1)) polls) last ≡ none
  unfolding poll_loop ends_polling
  all_rejected shown [] last h = refl
  all_rejected shown ((now, task) ∷ polls) last h =
      let q : ends_polling task.status.state ≡ false = ap ends_polling h.0 in
      rw q (all_rejected shown polls (some task) h.1)

  loop_ends :
      (shown : String) (limit : Option ℕ) (now : ℕ) (post : List Round) (task : Task) (e : Error)
      (last : Option Task)
      → ends_polling task.status.state ≡ true
      → (poll_loop shown limit (context_done ∷ post) last ≡ some (last, some poll_canceled))
        × (poll_loop shown limit (tick now (err e) ∷ post) last
            ≡ some (last, some (if is_after now limit then poll_timeout shown else poll_failed e)))
        × (poll_loop shown limit (tick now (ok task) ∷ post) last
            ≡ some (
                if is_after now limit
                then (last, some (poll_timeout shown))
                else (some task, none)))
  unfolding poll_loop
  loop_ends shown limit now post task e last t = elim (Bool-cases (is_after now limit)) [
    | inl q ↦ (refl, rw q refl, rw q refl)
    | inr q ↦ (refl, rw q refl, rw (q, t) refl)
  ]

  -- After rounds that go on, the next one decides: the end of the context and a tick after the
  -- deadline end the polling with an error and the last task that was polled, whatever GetTask would
  -- answer; before the deadline an error of GetTask does the same, and a task whose state ends the
  -- polling is returned without an error. With no further round it still waits.
  pub poll_decides :
      (start now : ℕ) (timeout : ℤ) (shown : String) (waits post : List Round) (task : Task)
      (e : Error)
      → All (GoesOn (deadline start timeout)) waits
      → ends_polling task.status.state ≡ true
      → (poll_task_completion start timeout shown (waits ++ context_done ∷ post)
          ≡ some (latest waits none, some poll_canceled))
        × (poll_task_completion start timeout shown (waits ++ tick now (err e) ∷ post)
            ≡ some (
              latest waits none,
              some (
                  if is_after now (deadline start timeout)
                  then poll_timeout shown
                  else poll_failed e),
            ))
        × (poll_task_completion start timeout shown (waits ++ tick now (ok task) ∷ post)
            ≡ some (
                if is_after now (deadline start timeout)
                then (latest waits none, some (poll_timeout shown))
                else (some task, none)))
        × (poll_task_completion start timeout shown waits ≡ none)
  unfolding poll_task_completion
  poll_decides start now timeout shown waits post task e h t =
      let limit = deadline start timeout in
      let (done, broken, answered) = loop_ends shown limit now post task e (latest waits none) t in
      (
        poll-append shown limit waits (context_done ∷ post) none h ∙ done,
        poll-append shown limit waits (tick now (err e) ∷ post) none h ∙ broken,
        poll-append shown limit waits (tick now (ok task) ∷ post) none h ∙ answered,
        ap (λ rounds. poll_loop shown limit rounds none) (sym (append-nil waits))
            ∙ (poll-append shown limit waits [] none h ∙ loop-nil shown limit (latest waits none)),
      )

  -- Without a timeout the polling of a task that its agent has rejected goes on, however often it is
  -- polled.
  pub poll_rejected :
      (start : ℕ) (shown : String) (polls : List (ℕ × Task))
      → All (λ p. p.1.status.state ≡ rejected) polls
      → poll_task_completion start (pos 0) shown (map (λ p. tick p.0 (ok p.1)) polls) ≡ none
  unfolding poll_task_completion
  poll_rejected start shown polls h = all_rejected shown polls none h
